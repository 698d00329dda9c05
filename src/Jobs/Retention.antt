-- ===== src/Jobs/Retention.antt =====
-- TrimJobs and ClearJobs of hub/internal/store/jobs.go: what goes and what stays.
use homedash.Prelude.{
  ℕ, zero, suc, ◌≤◌, ◌≡◌, refl, ap, ◌+◌, Bool, true, not, ◌&&◌, List, [], ◌∷◌, arith, keep, take,
  length, All,
}
use homedash.Jobs.{Job, is_running}
use homedash.Jobs.Table.{Table, trim_jobs, clear_jobs, at_host, is_in, ids, newest, at_least_five}
use homedash.Jobs.Updates.{Descending, Descending-keep}

-- A finished row of one host.
abbrev pub finished_at : ℕ → Job → Bool
finished_at host j = at_host host j && not (is_running j.state)

keep_congr :
    (p q : Job → Bool) (rows : Table) → All (λ j. p j ≡ q j) rows → keep p rows ≡ keep q rows
keep_congr p q [] h = refl
keep_congr p q (j ∷ js) h = rw (h.0, keep_congr p q js h.1)

not_the_first :
    (i n : ℕ) (more : List ℕ) (rows : Table)
    → Descending n rows
    → n ≤ i
    → All (λ j. is_in more j.id ≡ is_in (i ∷ more) j.id) rows
not_the_first i n more [] d h = tt
not_the_first i n more (j ∷ js) d h = (ground arith, not_the_first i j.id more js d.1 (omega arith))

-- Of rows with distinct ids, at most n have one of the first n ids.
length-keep-newest :
    (n m : ℕ) (rows : Table)
    → Descending m rows
    → length (keep (λ j. is_in (take n (ids rows)) j.id) rows) ≤ n
length-keep-newest zero m [] d = omega arith
length-keep-newest zero m (j ∷ js) d = length-keep-newest zero j.id js d.1
length-keep-newest (suc n) m [] d = omega arith
length-keep-newest (suc n) m (j ∷ js) d = ground (
  arith,
  length-keep-newest n j.id js d.1,
  keep_congr _ _ js (not_the_first j.id j.id (take n (ids js)) js d.1 (omega arith)),
)

keep-keep : (p q : Job → Bool) (rows : Table) → keep p (keep q rows) ≡ keep (λ j. q j && p j) rows
keep-keep p q [] = refl
keep-keep p q (j ∷ js) = ground (arith, keep-keep p q js)

length-keep-le-keep :
    (p q : Job → Bool) (rows : Table)
    → ((j : Job) → p j ≡ true → q j ≡ true)
    → length (keep p rows) ≤ length (keep q rows)
length-keep-le-keep p q [] h = omega arith
length-keep-le-keep p q (j ∷ js) h = ground (arith, h j, length-keep-le-keep p q js h)

keep_kept :
    (p q : Job → Bool) (rows : Table)
    → ((j : Job) → p j ≡ true → q j ≡ true)
    → keep p (keep q rows) ≡ keep p rows
keep_kept p q [] h = refl
keep_kept p q (j ∷ js) h = ground (arith, h j, keep_kept p q js h)

-- What TrimJobs leaves of a table whose ids fall: of the host's finished rows at most the number to
-- keep (five at least), and all of the running rows, of the other hosts' rows, and of the host's
-- newest rows up to that number, in their order.
pub trim_jobs_effect :
    (host n m : ℕ) (rows : Table)
    → Descending m rows
    → (length (keep (finished_at host) (trim_jobs host n rows).0) ≤ at_least_five n)
      × (keep (λ j. is_running j.state) (trim_jobs host n rows).0
          ≡ keep (λ j. is_running j.state) rows)
      × (keep (λ j. not (at_host host j)) (trim_jobs host n rows).0
          ≡ keep (λ j. not (at_host host j)) rows)
      × (keep (λ j. is_in (newest host (at_least_five n) rows) j.id) (trim_jobs host n rows).0
          ≡ keep (λ j. is_in (newest host (at_least_five n) rows) j.id) rows)
unfolding trim_jobs
trim_jobs_effect host n m rows d = (
  bound,
  keep_kept _ _ rows (λ j e. ground arith),
  keep_kept _ _ rows (λ j e. ground arith),
  keep_kept _ _ rows (λ j e. ground arith),
)
  where
    kept : List ℕ
    kept = newest host (at_least_five n) rows

    among : Job → Bool
    among j = at_host host j && is_in kept j.id

    bound :
        length (
          keep (finished_at host) (
            keep
              (λ j. not (at_host host j && not (is_running j.state) && not (is_in kept j.id)))
              rows))
        ≤ at_least_five n
    bound =
        let few =
          length-keep-newest (at_least_five n) m (keep (at_host host) rows)
            (Descending-keep (at_host host) m rows d) in
        let more =
          length-keep-le-keep
            (λ j.
              not (at_host host j && not (is_running j.state) && not (is_in kept j.id))
              && finished_at host j)
            among rows (λ j e. ground arith) in
        rw keep-keep (
          omega
            (arith, more, few, ap length (keep-keep (λ j. is_in kept j.id) (at_host host) rows)))

-- ClearJobs leaves the running rows, reports each other row once, and nothing else.
pub clear_jobs_effect :
    (rows : Table)
    → (length (clear_jobs rows).0 + length (clear_jobs rows).1 ≡ length rows)
      × All (λ j. is_running j.state ≡ true) (clear_jobs rows).0
      × (keep (λ j. is_running j.state) rows ≡ (clear_jobs rows).0)
unfolding clear_jobs
clear_jobs_effect [] = (omega arith, tt, refl)
clear_jobs_effect (j ∷ js) = ground (arith, clear_jobs_effect js)
