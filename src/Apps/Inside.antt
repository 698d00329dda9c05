-- ===== src/Apps/Inside.antt =====
-- The paths that `safeRelPath` of hub/internal/apps/apps.go lets through, as the machine walks them.
use homedash.Prelude.{
  ℕ, zero, suc, String, Bool, true, false, not, ◌&&◌, ◌||◌, List, [], ◌∷◌, str_eq, any, ◌≡◌, refl,
  if◌then◌else◌, arith,
}
use homedash.Prelude.Text.{is_empty, has_prefix, cut_prefix}
use homedash.Apps.{split_slash, is_bad_piece, safe_rel_path}

-- A walk along the pieces of a path, from a number of directories below the stack's: whether it
-- never leaves the stack's directory. An empty piece and a dot stay, two dots climb.
unfoldable pub stays : ℕ → List String → Bool
stays depth [] = true
stays zero (p ∷ ps) =
    let here = stays zero ps in
    let below = stays (suc zero) ps in
    if is_empty p || str_eq p "." then here else not (str_eq p "..") && below
stays (suc depth) (p ∷ ps) =
    let above = stays depth ps in
    let here = stays (suc depth) ps in
    let below = stays (suc (suc depth)) ps in
    if is_empty p || str_eq p "." then here else if str_eq p ".." then above else below

-- A path that, taken from the stack's directory, names something inside it.
unfoldable pub is_inside : String → Bool
unfolding stays
is_inside p =
    let (piece, pieces) = split_slash p in not (has_prefix p "/") && stays 0 (piece ∷ pieces)

stays-pieces : (depth : ℕ) (ps : List String) → any is_bad_piece ps ≡ false → stays depth ps ≡ true
unfolding stays
stays-pieces depth [] h = refl
stays-pieces zero (p ∷ ps) h =
    let i = stays-pieces zero ps in let j = stays-pieces (suc zero) ps in ground arith
stays-pieces (suc depth) (p ∷ ps) h =
    let i = stays-pieces (suc depth) ps in let j = stays-pieces (suc (suc depth)) ps in ground arith

-- The paths that the code lets through are inside.
pub safe-inside : (p : String) → safe_rel_path p ≡ true → is_inside p ≡ true
unfolding safe_rel_path is_inside
safe-inside p h =
    let ps = (split_slash p).0 ∷ (split_slash p).1 in
    let i = stays-pieces zero ps in
    let start = has_prefix p "/" in
    let bad = any is_bad_piece ps in inside (is_empty p) start bad (stays 0 ps) i h
  where
    inside :
        (none_given start bad walk : Bool)
        → (bad ≡ false → walk ≡ true)
        → not (none_given || start) && not bad ≡ true
        → not start && walk ≡ true
    inside none_given start bad walk i h = ground arith

pub compose-inside : is_inside "compose.yml" ≡ true
unfolding is_inside stays split_slash has_prefix cut_prefix
compose-inside = refl

pub env-inside : is_inside ".env" ≡ true
unfolding is_inside stays split_slash has_prefix cut_prefix
env-inside = refl
