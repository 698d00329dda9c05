-- ===== src/Space/Services/Share.antt =====
-- hub/internal/peers/services.go: the ceiling of the connections and a peer's share of it, whatever the
-- peers ask for and in whatever order the connections end, while the hub stays in its space.
use homedash.Prelude.{
  ℕ, suc, ◌≤◌, ◌<◌, ◌≡◌, refl, sym, ap, ◌∙◌, String, Bool, true, false, List, [], ◌∷◌, length, any,
  str_eq, str_eq_iff, if◌then◌else◌, arith,
}
use homedash.Prelude.Int.{ℤ, pos, succ_ℤ, pred_ℤ, pred-succ, leb_ℤ, ltb_ℤ}
use homedash.Settings.{Settings}
use homedash.Space.{change}
use homedash.Space.Services.{ceiling, share}

-- How many of the connections at work are a peer's.
abbrev pub times : String → List String → ℕ
times peer [] = 0
times peer (x ∷ xs) = if str_eq x peer then suc (times peer xs) else times peer xs

abbrev pub without_one : String → List String → List String
without_one peer [] = []
without_one peer (x ∷ xs) = if str_eq x peer then xs else x ∷ without_one peer xs

-- The counters are the connections at work, which keep to the limits.
unfoldable pub Held : Settings → ℤ → (String → ℤ) → List String → Type 0
Held settings total counts work =
    (total ≡ pos (length work))
    × ((peer : String) → counts peer ≡ pos (times peer work))
    × (length work ≤ ceiling settings)
    × ((peer : String) → times peer work ≤ share settings)

succ-pos : (n : ℕ) → succ_ℤ (pos n) ≡ pos (suc n)
succ-pos n = ground arith

pred-pos : (n : ℕ) → pred_ℤ (pos (suc n)) ≡ pos n
pred-pos n = ground arith

pub Held-given_back :
    (settings : Settings) (t : ℤ) (f : String → ℤ) (work : List String)
    → Held settings t f work
    → Held settings (pred_ℤ (succ_ℤ t)) f work
unfolding Held
Held-given_back settings t f work h = rw (pred-succ t) h

times-next :
    (x peer : String) (n : ℕ) (z : ℤ)
    → z ≡ pos n
    → (if str_eq x peer then succ_ℤ z else z) ≡ pos (if str_eq x peer then suc n else n)
times-next x peer n z e = ground arith

change-back :
    (b : Bool) (z : ℤ)
    → (if b then pred_ℤ (if b then succ_ℤ z else z) else (if b then succ_ℤ z else z)) ≡ z
change-back true z = pred-succ z
change-back false z = refl

pub Held-refused :
    (settings : Settings) (t : ℤ) (f : String → ℤ) (work : List String) (peer : String)
    → Held settings t f work
    → Held settings (pred_ℤ (succ_ℤ t)) (change pred_ℤ peer (change succ_ℤ peer f)) work
unfolding Held
Held-refused settings t f work peer h =
    (pred-succ t ∙ h.0, (λ p. change-back (str_eq peer p) (f p) ∙ h.1 p), h.2, h.3)

times-share :
    (b : Bool) (n most : ℕ) → n ≤ most → (b ≡ true → n < most) → (if b then suc n else n) ≤ most
times-share true n most h k = k refl
times-share false n most h k = h

under : (n most : ℕ) (z : ℤ) → z ≡ pos n → leb_ℤ (pos most) z ≡ false → n < most
under n most z e h = ground arith

within : (n most : ℕ) (z : ℤ) → z ≡ pos n → ltb_ℤ (pos most) (succ_ℤ z) ≡ false → suc n ≤ most
within n most z e h = ground arith

pub Held-accepted :
    (settings : Settings) (t : ℤ) (f : String → ℤ) (work : List String) (peer : String)
    → Held settings t f work
    → leb_ℤ (pos (share settings)) (f peer) ≡ false
    → ltb_ℤ (pos (ceiling settings)) (succ_ℤ t) ≡ false
    → Held settings (succ_ℤ t) (change succ_ℤ peer f) (peer ∷ work)
unfolding Held
Held-accepted settings t f work peer h over full = (
  ap succ_ℤ h.0 ∙ succ-pos (length work),
  (λ p. times-next peer p (times p work) (f p) (h.1 p)),
  within (length work) (ceiling settings) t h.0 full,
  (λ p. times-share (str_eq peer p) (times p work) (share settings) (h.3 p) (λ e.
      under (times p work) (share settings) (f p) (h.1 p)
        (rw (sym ((str_eq_iff peer p).0 e)) over))),
)

length-without_one :
    (peer : String) (work : List String)
    → any (λ x. str_eq x peer) work ≡ true
    → suc (length (without_one peer work)) ≡ length work
length-without_one peer [] h = ground arith
length-without_one peer (x ∷ xs) h = let i = length-without_one peer xs in ground arith

times-without_one :
    (peer p : String) (work : List String)
    → any (λ x. str_eq x peer) work ≡ true
    → times p work ≡ (
        if str_eq peer p
        then suc (times p (without_one peer work))
        else times p (without_one peer work))
times-without_one peer p [] h = ground arith
times-without_one peer p (x ∷ xs) h =
    let i = times-without_one peer p xs in
    let e = str_eq_iff x peer in let f = str_eq_iff peer p in let g = str_eq_iff x p in ground arith

pred-counted :
    (b : Bool) (z : ℤ) (m n : ℕ)
    → z ≡ pos n
    → n ≡ (if b then suc m else m)
    → (if b then pred_ℤ z else z) ≡ pos m
pred-counted true z m n e f = ap pred_ℤ (e ∙ ap pos f) ∙ pred-pos m
pred-counted false z m n e f = e ∙ ap pos f

fewer : (b : Bool) (m n most : ℕ) → n ≡ (if b then suc m else m) → n ≤ most → m ≤ most
fewer true m n most e h = omega arith
fewer false m n most e h = omega arith

pub Held-ended :
    (settings : Settings) (t : ℤ) (f : String → ℤ) (work : List String) (peer : String)
    → Held settings t f work
    → any (λ x. str_eq x peer) work ≡ true
    → Held settings (pred_ℤ t) (change pred_ℤ peer f) (without_one peer work)
unfolding Held
Held-ended settings t f work peer h held =
    let shorter = length-without_one peer work held in
    (
      ap pred_ℤ (h.0 ∙ ap pos (sym shorter)) ∙ pred-pos (length (without_one peer work)),
      (λ p.
          pred-counted (str_eq peer p) (f p) (times p (without_one peer work)) (times p work)
            (h.1 p) (times-without_one peer p work held)),
      omega (arith, shorter, h.2),
      (λ p.
          fewer (str_eq peer p) (times p (without_one peer work)) (times p work) (share settings)
            (times-without_one peer p work held) (h.3 p)),
    )
