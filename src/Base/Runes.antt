-- ===== src/Base/Runes.antt =====
-- Go's `for _, r := range s`, `strings.Fields`, `strings.ToLower` and their like on any bytes: what is
-- not valid UTF-8 gives the rune U+FFFD, byte by byte.
use svcdoctor.Base.Tests.{ltb, ◌==◌, if◌then◌else◌}
use Prim.Native.Nat.{ℕ, zero, suc, ◌+◌, ◌-◌, ◌*◌}
use mathlib.Core.Path.{◌≡◌, refl}
use mathlib.Core.Bool.{Bool, true, false, ◌&&◌, ◌||◌}
use mathlib.Core.List.{List, [], ◌∷◌, ◌++◌}
use mathlib.Core.Option.{Option, none, some}
use svcdoctor.Base.Bytes.{Bytes, codes}
use svcdoctor.Base.Utf8.{Pending, start, more, within, lead, is_space}

-- The rune at the front, if it is encoded there.
unfoldable pub rune_of : Pending → Bytes → Option ℕ
unfolding lead
rune_of p [] = none
rune_of start (b ∷ bs) =
    let many : Option ℕ = elim (lead b) [ none ↦ none | some p ↦ rune_of p bs ] in
    if ltb b 0x80 then some b else many
rune_of (more zero lo hi acc) (b ∷ bs) = none
rune_of (more (suc zero) lo hi acc) (b ∷ bs) =
    if within lo hi b then some (acc * 64 + (b - 0x80)) else none
rune_of (more (suc (suc k)) lo hi acc) (b ∷ bs) =
    let next = rune_of (more (suc k) 0x80 0xBF (acc * 64 + (b - 0x80))) bs in
    if within lo hi b then next else none

-- The bytes after the first one that encode a rune.
abbrev tail_bytes : ℕ → ℕ
tail_bytes r = if ltb r 0x80 then 0 else if ltb r 0x800 then 1 else if ltb r 0x10000 then 2 else 3

-- `decode k s` is for a place where `k` bytes of the last rune still follow.
unfoldable pub decode : ℕ → Bytes → List ℕ
unfolding rune_of
decode k [] = []
decode (suc k) (b ∷ bs) = decode k bs
decode zero (b ∷ bs) = elim (rune_of start (b ∷ bs)) [
  | none ↦ 0xFFFD ∷ decode zero bs
  | some r ↦ r ∷ decode (tail_bytes r) bs
]

-- A word that ends here, if there is one.
abbrev pub push_word : List ℕ → List (List ℕ) → List (List ℕ)
push_word [] words = words
push_word (r ∷ word) words = (r ∷ word) ∷ words

-- `strings.Fields`, after the runes of a word that has begun.
unfoldable pub fields : List ℕ → List ℕ → List (List ℕ)
unfolding is_space
fields word [] = push_word word []
fields word (r ∷ rs) =
    let inside = fields (word ++ r ∷ []) rs in
    let outside = push_word word (fields [] rs) in if is_space r then outside else inside

-- The runes before the first space.
unfoldable pub before_space : List ℕ → List ℕ
unfolding is_space
before_space [] = []
before_space (r ∷ rs) = if is_space r then [] else r ∷ before_space rs

-- `unicode.ToLower`, as far as the result is ASCII: the Kelvin sign and the dotted capital I are the
-- only other runes that become an ASCII letter.
abbrev pub lower : ℕ → ℕ
lower r =
    if within b'A' b'Z' r
    then r + 32
    else if r == 0x212A
    then b'k'
    else if r == 0x130
    then b'i'
    else r

-- `unicode.ToUpper` on the runes whose `lower` is ASCII.
abbrev pub upper : ℕ → ℕ
upper r = if within b'a' b'z' r then r - 32 else r

unfoldable pub starts_with : List ℕ → List ℕ → Bool
starts_with [] rs = true
starts_with (p ∷ ps) [] = false
starts_with (p ∷ ps) (r ∷ rs) = p == r && starts_with ps rs

-- `strings.Contains`
unfoldable pub contains : List ℕ → List ℕ → Bool
unfolding starts_with
contains pattern [] = starts_with pattern []
contains pattern (r ∷ rs) = starts_with pattern (r ∷ rs) || contains pattern rs

decode_text :
    decode 0 (0x68 ∷ 0xC3 ∷ 0xA9 ∷ 0xE2 ∷ 0x82 ∷ 0xF0 ∷ 0x9F ∷ 0x98 ∷ 0x80 ∷ [])
    ≡ 0x68 ∷ 0xE9 ∷ 0xFFFD ∷ 0xFFFD ∷ 0x1F600 ∷ []
unfolding decode lead
decode_text = refl

fields_text : fields [] (codes " -a b  c ") ≡ codes "-a" ∷ codes "b" ∷ codes "c" ∷ []
unfolding fields is_space
fields_text = refl
