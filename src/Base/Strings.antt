-- ===== src/Base/Strings.antt =====
-- Texts that are joined.
use Prim.Native.String.{String, ◌++◌ as ◌<>◌}
use mathlib.Core.Path.{◌≡◌}
use native.Mathlib.Omega.{arith}
use text.Mathlib.TextLemmas
use text.Mathlib.TextLemmas.{append_cancel_left}
use brqueue.Base.Equality.{◌==◌, string_eq}

-- What is put before two texts does not change whether they are the same.
pub ==-append : (base s t : String) → (base <> s == base <> t) ≡ (s == t)
==-append base s t = ground (arith, append_cancel_left base s t)

pub <>_assoc : (s t u : String) → (s <> t) <> u ≡ s <> (t <> u)
<>_assoc s t u = TextLemmas.append_assoc s t u
