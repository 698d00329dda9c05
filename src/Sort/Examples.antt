-- ===== src/Sort/Examples.antt =====
-- Sorting texts at a concrete input.
use homedash.Prelude.{[], ◌∷◌, str_lt, ◌≡◌, refl}
use mathlib.Core.List.{reverse, reverse_aux}
use homedash.Sort.{insertion_sort, sort_onto, sink}

sort_test :
    insertion_sort str_lt ("qwen" ∷ "llama" ∷ "gemma" ∷ []) ≡ "gemma" ∷ "llama" ∷ "qwen" ∷ []
unfolding insertion_sort sort_onto sink reverse reverse_aux
sort_test = refl
