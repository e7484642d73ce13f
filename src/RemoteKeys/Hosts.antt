-- ===== src/RemoteKeys/Hosts.antt =====
-- The keys of a host stay below its id.
use majutsu.Base.{
  ◌≡◌, ◌≢◌, refl, sym, ap, ◌∙◌, inl, inr, true, false, [], ◌∷◌, ◌++◌, arith, append_assoc,
  Bool-cases,
}
use majutsu.Base.Text.{Str, codes, starts_with, starts_with_sound, starts_with-append, has_char}
use majutsu.RemoteKeys.{host_remote_key}

-- The text in front of the first slash is the host's id.
before_slash :
    (h h' s s' : Str)
    → has_char b'/' h ≡ false
    → has_char b'/' h' ≡ false
    → h ++ (b'/' ∷ s) ≡ h' ++ (b'/' ∷ s')
    → h ≡ h'
unfolding has_char
before_slash [] [] s s' n n' e = refl
before_slash [] (c ∷ h') s s' n n' e = absurd (let k : b'/' ≡ c = cc e in ground (arith, k, n'))
before_slash (c ∷ h) [] s s' n n' e = absurd (let k : c ≡ b'/' = cc e in ground (arith, k, n))
before_slash (c ∷ h) (d ∷ h') s s' n n' e =
    let k : c ≡ d = cc e in
    let e' : h ++ (b'/' ∷ s) ≡ h' ++ (b'/' ∷ s') = cc e in
    let rest = before_slash h h' s s' (ground (arith, n)) (ground (arith, n')) e' in cc (k, rest)

host_remote_key-below : (h key : Str) → (s : Str) × (host_remote_key h key ≡ h ++ (b'/' ∷ s))
unfolding host_remote_key
host_remote_key-below h key = elim (Bool-cases (starts_with (h ++ codes "/") key)) [
  | inl e ↦
      let (s, e') = starts_with_sound (h ++ codes "/") key e in
      (s, rw (e, host_remote_key) (e' ∙ append_assoc h (codes "/") s))
  | inr e ↦ (key, rw (e, host_remote_key))
]

host_remote_key_again :
    (h key : Str) → host_remote_key h (host_remote_key h key) ≡ host_remote_key h key
unfolding host_remote_key
host_remote_key_again h key = elim (Bool-cases (starts_with (h ++ codes "/") key)) [
  | inl e ↦ rw (e, host_remote_key) (rw (e, host_remote_key))
  | inr e ↦
      let below : starts_with (h ++ codes "/") (h ++ (b'/' ∷ key)) ≡ true =
        ap (starts_with (h ++ codes "/")) (sym (append_assoc h (codes "/") key))
        ∙ starts_with-append (h ++ codes "/") key in
      rw (e, host_remote_key) (rw (below, host_remote_key))
]

-- Two different hosts never write one key, whatever they write; and a key that is put below a host's id
-- once stays as it is when it is put there again. Condition: the ids have no slash.
pub host_remote_key_apart :
    (h h' key other : Str)
    → has_char b'/' h ≡ false
    → has_char b'/' h' ≡ false
    → h ≢ h'
    → (host_remote_key h key ≢ host_remote_key h' other)
      × (host_remote_key h (host_remote_key h key) ≡ host_remote_key h key)
host_remote_key_apart h h' key other n n' differ = (
  (λ e.
      (let (s, below) = host_remote_key-below h key in
        let (s', below') = host_remote_key-below h' other in
        differ (before_slash h h' s s' n n' (sym below ∙ (e ∙ below'))))),
  host_remote_key_again h key,
)
