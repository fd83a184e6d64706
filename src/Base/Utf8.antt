-- ===== src/Base/Utf8.antt =====
-- Go's `utf8.ValidString`, `for _, r := range s`, `strings.TrimSpace` and `unicode.IsControl`, as
-- the standard library documents them.
use svcdoctor.Base.Tests.{ltb, leb, ◌==◌, if◌then◌else◌}
use Prim.Native.Nat.{ℕ, zero, suc, ◌+◌, ◌-◌, ◌*◌}
use mathlib.Core.Path.{◌≡◌, refl}
use mathlib.Core.Bool.{Bool, false, ◌&&◌, ◌||◌}
use mathlib.Core.List.{List, [], ◌∷◌, reverse}
use mathlib.Core.Option.{Option, none, some}
use svcdoctor.Base.Bytes.{Bytes, codes}

-- Between runes, or inside one: continuation bytes left, bounds on the next byte, bits so far.
pub data Pending : Type 0 where
  start : Pending
  more : ℕ → ℕ → ℕ → ℕ → Pending

abbrev pub within : ℕ → ℕ → ℕ → Bool
within lo hi b = leb lo b && leb b hi

-- The first byte of a rune fixes its length and the range of its second byte.
unfoldable pub lead : ℕ → Option Pending
lead b =
    if within 0xC2 0xDF b
    then some (more 1 0x80 0xBF (b - 0xC0))
    else if b == 0xE0
    then some (more 2 0xA0 0xBF (b - 0xE0))
    else if b == 0xED
    then some (more 2 0x80 0x9F (b - 0xE0))
    else if within 0xE1 0xEF b
    then some (more 2 0x80 0xBF (b - 0xE0))
    else if b == 0xF0
    then some (more 3 0x90 0xBF (b - 0xF0))
    else if within 0xF1 0xF3 b
    then some (more 3 0x80 0xBF (b - 0xF0))
    else if b == 0xF4
    then some (more 3 0x80 0x8F (b - 0xF0))
    else none

abbrev consume : ℕ → Option (List ℕ) → Option (List ℕ)
consume r none = none
consume r (some rs) = some (r ∷ rs)

-- The runes of a byte string that is valid UTF-8.
runes_from : Pending → Bytes → Option (List ℕ)
unfolding lead
runes_from start [] = some []
runes_from (more k lo hi acc) [] = none
runes_from start (b ∷ bs) =
    let one = consume b (runes_from start bs) in
    let many : Option (List ℕ) = elim (lead b) [ none ↦ none | some p ↦ runes_from p bs ] in
    if ltb b 0x80 then one else many
runes_from (more zero lo hi acc) (b ∷ bs) = none
runes_from (more (suc zero) lo hi acc) (b ∷ bs) =
    let last = consume (acc * 64 + (b - 0x80)) (runes_from start bs) in
    if within lo hi b then last else none
runes_from (more (suc (suc k)) lo hi acc) (b ∷ bs) =
    let next = runes_from (more (suc k) 0x80 0xBF (acc * 64 + (b - 0x80))) bs in
    if within lo hi b then next else none

unfoldable pub runes : Bytes → Option (List ℕ)
unfolding runes_from
runes = runes_from start

unfoldable pub is_space : ℕ → Bool
is_space r =
    within 0x09 0x0D r
    || r == 0x20
    || r == 0x85
    || r == 0xA0
    || r == 0x1680
    || within 0x2000 0x200A r
    || r == 0x2028
    || r == 0x2029
    || r == 0x202F
    || r == 0x205F
    || r == 0x3000

unfoldable pub is_control : ℕ → Bool
is_control r = ltb r 0x20 || within 0x7F 0x9F r

unfoldable pub drop_spaces : List ℕ → List ℕ
unfolding is_space
drop_spaces [] = []
drop_spaces (r ∷ rs) = if is_space r then drop_spaces rs else r ∷ rs

-- `strings.TrimSpace`, on runes
unfoldable pub trim_space : List ℕ → List ℕ
unfolding drop_spaces
trim_space rs = reverse (drop_spaces (reverse (drop_spaces rs)))

unfoldable pub has_control : List ℕ → Bool
unfolding is_control
has_control [] = false
has_control (r ∷ rs) = is_control r || has_control rs

runes_text :
    runes (0x68 ∷ 0xC3 ∷ 0xA9 ∷ 0xE2 ∷ 0x82 ∷ 0xAC ∷ 0xF0 ∷ 0x9F ∷ 0x98 ∷ 0x80 ∷ [])
    ≡ some (0x68 ∷ 0xE9 ∷ 0x20AC ∷ 0x1F600 ∷ [])
unfolding runes
runes_text = refl

runes_surrogate : runes (0xED ∷ 0xA0 ∷ 0x80 ∷ []) ≡ none
unfolding runes
runes_surrogate = refl

trim_text : trim_space (codes "  a b\n") ≡ codes "a b"
unfolding trim_space
trim_text = refl
