-- ===== src/Space/Tables/Lists.antt =====
-- hub/internal/store/peers.go: the published services, whose peers are one text with commas.
use Prim.Native.String
use Prim.Native.Char.{code}
use homedash.Prelude.{
  ℕ, ◌≡◌, refl, String, not, Option, none, some, List, [], ◌∷◌, ◌==◌, str_eq, str_eq_iff, arith,
  if◌then◌else◌, keep,
}
use homedash.Prelude.Text.{trim_space}
use homedash.Space.Tables.{Service, list_items}

-- `strings.Join` with a comma.
abbrev pub join_commas : List String → String
join_commas [] = ""
join_commas (x ∷ []) = x
join_commas (x ∷ y ∷ ys) = String.◌++◌ x (String.◌++◌ "," (join_commas (y ∷ ys)))

-- `joinList`.
unfoldable pub join_list : List String → String
join_list xs = join_commas (list_items [] xs)

abbrev pub onto_first : String → List String → List String
onto_first c [] = c ∷ []
onto_first c (x ∷ xs) = String.◌++◌ c x ∷ xs

-- `strings.Split` at the commas.
unfoldable pub split_commas : String → List String
split_commas String.[] = "" ∷ []
split_commas (String.◌∷◌ c s) =
    let rest = split_commas s in
    if code c == 44 then "" ∷ rest else onto_first (String.◌∷◌ c "") rest

abbrev pub without_blanks : List String → List String
without_blanks [] = []
without_blanks (x ∷ xs) =
    let item = trim_space x in
    let rest = without_blanks xs in if str_eq item "" then rest else item ∷ rest

-- `splitList`.
unfoldable pub split_list : String → List String
split_list s = without_blanks (split_commas s)

unfoldable pub put_service : Service → List Service → List Service
put_service new [] = new ∷ []
put_service new (s ∷ ss) =
    let rest = put_service new ss in if str_eq s.name new.name then new ∷ ss else s ∷ rest

-- `PublishService`.
unfoldable pub publish_service : String → ℕ → ℕ → List String → List Service → List Service
publish_service name host_id port peers =
    put_service (record { name = name; host_id = host_id; port = port; peers = join_list peers })

-- `UnpublishService`.
unfoldable pub unpublish_service : String → List Service → List Service
unpublish_service name = keep (λ s. not (str_eq s.name name))

-- `Service`; the peers are those of `split_list`.
unfoldable pub find_service : String → List Service → Option Service
find_service name [] = none
find_service name (s ∷ ss) = if str_eq s.name name then some s else find_service name ss

lists_test : split_list (join_list (" a" ∷ "b" ∷ "a" ∷ "" ∷ [])) ≡ "a" ∷ "b" ∷ []
unfolding split_list join_list split_commas list_items trim_space
lists_test = refl

find-put_service :
    (name : String) (new : Service) (ss : List Service)
    → find_service name (put_service new ss)
      ≡ (if str_eq new.name name then some new else find_service name ss)
unfolding find_service put_service
find-put_service name new [] = refl
find-put_service name new (s ∷ ss) =
    let i = find-put_service name new ss in
    let e = str_eq_iff s.name new.name in
    let f = str_eq_iff new.name name in let g = str_eq_iff s.name name in ground arith
