-- ===== src/ObjectKey/Agreement.antt =====
-- The two validators accept the same keys, and what they accept stays below its directory.
use majutsu.Base.{List}
