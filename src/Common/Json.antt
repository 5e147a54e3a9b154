-- ===== src/Common/Json.antt =====
-- The values that the program types `unknown`: what `JSON.parse` returns. The one kind of number
-- is the natural numbers; no modelled operation computes with another.
use Prim.Native.Nat.{ℕ}
use Prim.Native.String.{String}
use mathlib.Core.Bool.{Bool}
use mathlib.Core.Option.{Option, none, some}
use mathlib.Core.Path.{◌≡◌, refl}
use mathlib.Core.Logic.{◌↔◌}
use native.Mathlib.Omega.{arith}
use text.Mathlib.Text.{◌==◌}
use kb_labs_host_agent.Common.Tests.{if◌then◌else◌}

mutual
  pub data Json : Type 0 where
    null : Json
    bool : Bool → Json
    num : ℕ → Json
    str : String → Json
    arr : Items → Json
    obj : Fields → Json

  pub data Items : Type 0 where
    nil : Items
    item : Json → Items → Items

  pub data Fields : Type 0 where
    end : Fields
    field : String → Json → Fields → Fields

unfoldable pub find_field : String → Fields → Option Json
find_field k end = none
find_field k (field j v fs) = if j == k then some v else find_field k fs

-- `v[k]` for a value other than `null`; `none` is `undefined`.
unfoldable pub get : Json → String → Option Json
unfolding find_field
get (obj fs) k = find_field k fs
get _ k = none

-- The text of a value, if `typeof v === 'string'`.
unfoldable pub as_text : Option Json → Option String
as_text (some (str s)) = some s
as_text _ = none

-- `typeof v === 'string'`, with its text.
pub as_text_iff : (v : Option Json) (t : String) → (as_text v ≡ some t) ↔ (v ≡ some (str t))
unfolding as_text
as_text_iff none t = (λ e. cc, λ e. cc)
as_text_iff (some (str s)) t = ground arith
as_text_iff (some v) t = (λ e. cc, λ e. cc)

pub get-null : (k : String) → get null k ≡ none
unfolding get
get-null k = refl
