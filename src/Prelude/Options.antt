-- ===== src/Prelude/Options.antt =====
-- The bind for `Option`, which do blocks use.
use mathlib.Core.Option.{Option, none, some}

infixl 5 ◌>>=◌
abbrev pub ◌>>=◌ {μ ν} : {S : Type μ} {T : Type ν} → Option S → (S → Option T) → Option T
some value >>= next = next value
none >>= next = none
