-- ===== src/Jobs/Events.antt =====
-- hub/internal/agent/jobs.go: `batchLines`, which writes a job's lines in batches. A signal is what
-- the goroutine's select delivers; with it comes whether the store takes the batch, should there be
-- one to write.
use homedash.Prelude.{
  ◌≤◌, ◌<◌, ◌≡◌, refl, ap, sym, ◌+◌, ◌∙◌, String, Bool, true, false, List, [], ◌∷◌, ◌++◌, arith,
  leb, if◌then◌else◌, length, length-append, All,
}
use mathlib.Core.List.{append-nil, append_assoc}

pub data Signal : Type 0 where
  line : String → Bool → Signal
  tick : Bool → Signal

pub record Batcher : Type 0 where
  pub buf : List String
  pub stored : List (List String)  -- the transactions that committed
  pub lost : List (List String)  -- those that the store refused, logged and dropped

abbrev pub fresh : Batcher
fresh = record { buf = []; stored = []; lost = [] }

flush_full : Bool → List String → Batcher → Batcher
flush_full true batch b = record b { buf = []; stored = b.stored ++ batch ∷ [] }
flush_full false batch b = record b { buf = []; lost = b.lost ++ batch ∷ [] }

unfoldable pub flush : Bool → Batcher → Batcher
unfolding flush_full
flush accepts b = elim b.buf [ [] ↦ b | l ∷ rest ↦ flush_full accepts (l ∷ rest) b ]

abbrev add_line : String → Batcher → Batcher
add_line l b = record b { buf = b.buf ++ l ∷ [] }

unfoldable pub on_signal : Batcher → Signal → Batcher
unfolding flush
on_signal b (line l accepts) =
    let b' = add_line l b in if leb 50 (length b'.buf) then flush accepts b' else b'
on_signal b (tick accepts) = flush accepts b

-- The signals, then the closed channel: a last flush.
unfoldable pub batch_lines : Batcher → List Signal → Bool → Batcher
unfolding on_signal
batch_lines b [] accepts = flush accepts b
batch_lines b (s ∷ ss) accepts = batch_lines (on_signal b s) ss accepts

-- The lines that were sent, in order.
abbrev pub sent : List Signal → List String
sent [] = []
sent (line l a ∷ ss) = l ∷ sent ss
sent (tick a ∷ ss) = sent ss

abbrev pub AcceptsAll : List Signal → Type 0
AcceptsAll [] = Unit {0}
AcceptsAll (line l a ∷ ss) = (a ≡ true) × AcceptsAll ss
AcceptsAll (tick a ∷ ss) = (a ≡ true) × AcceptsAll ss

abbrev pub concat : List (List String) → List String
concat [] = []
concat (b ∷ bs) = b ++ concat bs

-- What one batch may hold: a transaction is never empty, and never above fifty lines.
abbrev pub Sized : List String → Type 0
Sized b = (1 ≤ length b) × (length b ≤ 50)

pub record Inv (b : Batcher) : Type 0 where
  pub room : length b.buf < 50
  pub stored : All Sized b.stored
  pub lost : All Sized b.lost

concat-snoc : (bs : List (List String)) (b : List String) → concat (bs ++ b ∷ []) ≡ concat bs ++ b
concat-snoc [] b = append-nil b
concat-snoc (x ∷ bs) b = simp (concat-snoc bs b, append_assoc)

All-snoc :
    (bs : List (List String)) (b : List String) → All Sized bs → Sized b → All Sized (bs ++ b ∷ [])
All-snoc [] b h s = (s, tt)
All-snoc (x ∷ bs) b h s = (h.0, All-snoc bs b h.1 s)

-- What is written so far, and then what waits.
abbrev all_of : Batcher → List String
all_of b = concat b.stored ++ b.buf

flush-buf : (accepts : Bool) (b : Batcher) → (flush accepts b).buf ≡ []
unfolding flush
flush-buf true b = ground arith
flush-buf false b = ground arith

all_of-flush : (b : Batcher) → all_of (flush true b) ≡ all_of b
unfolding flush
all_of-flush b = go b.buf refl
  where
    go : (l : List String) → b.buf ≡ l → all_of (flush true b) ≡ all_of b
    go [] e = rw (e, flush) (ap (λ l. concat b.stored ++ l) e)
    go (x ∷ r) e = rw (e, flush) (append-nil _ ∙ concat-snoc b.stored (x ∷ r))

flush-Inv :
    (accepts : Bool) (b : Batcher)
    → All Sized b.stored
    → All Sized b.lost
    → length b.buf ≤ 50
    → Inv (flush accepts b)
unfolding flush
flush-Inv accepts b s l n = go accepts b.buf refl
  where
    go : (a : Bool) (xs : List String) → b.buf ≡ xs → Inv (flush a b)
    go a [] e = rw (e, flush) (record { room = rw e (omega arith); stored = s; lost = l })
    go true (x ∷ r) e =
        rw (e, flush)
          (record {
            room = omega arith;
            stored = All-snoc b.stored (x ∷ r) s (omega arith, omega (arith, ap length e));
            lost = l;
          })
    go false (x ∷ r) e =
        rw (e, flush)
          (record {
            room = omega arith;
            stored = s;
            lost = All-snoc b.lost (x ∷ r) l (omega arith, omega (arith, ap length e));
          })

on_signal-Inv : (b : Batcher) (s : Signal) → Inv b → Inv (on_signal b s)
unfolding on_signal
on_signal-Inv b (tick a) v = flush-Inv a b v.stored v.lost (omega arith)
on_signal-Inv b (line l a) v = step (leb 50 (length (b.buf ++ l ∷ []))) refl
  where
    grown : length (b.buf ++ l ∷ []) ≡ length b.buf + 1
    grown = length-append b.buf (l ∷ [])

    step :
        (full : Bool)
        → leb 50 (length (b.buf ++ l ∷ [])) ≡ full
        → Inv (if full then flush a (add_line l b) else add_line l b)
    step true e = flush-Inv a (add_line l b) v.stored v.lost (omega (arith, grown))
    step false e = record { room = ground arith; stored = v.stored; lost = v.lost }

batch_lines-Inv :
    (b : Batcher) (ss : List Signal) (accepts : Bool) → Inv b → Inv (batch_lines b ss accepts)
unfolding batch_lines
batch_lines-Inv b [] accepts v = flush-Inv accepts b v.stored v.lost (omega arith)
batch_lines-Inv b (s ∷ ss) accepts v =
    batch_lines-Inv (on_signal b s) ss accepts (on_signal-Inv b s v)

-- Every batch, written or refused, has between one line and fifty, whatever the signals.
pub batch_lines-Sized :
    (ss : List Signal) (accepts : Bool)
    → All Sized (batch_lines fresh ss accepts).stored
      × All Sized (batch_lines fresh ss accepts).lost
batch_lines-Sized ss accepts =
    let v =
      batch_lines-Inv fresh ss accepts (record { room = omega arith; stored = tt; lost = tt }) in
    (v.stored, v.lost)

all_of-on_signal :
    (b : Batcher) (s : Signal)
    → AcceptsAll (s ∷ [])
    → all_of (on_signal b s) ≡ all_of b ++ sent (s ∷ [])
unfolding on_signal
all_of-on_signal b (tick a) h = rw h.0 (all_of-flush b ∙ sym (append-nil (all_of b)))
all_of-on_signal b (line l a) h = rw h.0 (step (leb 50 (length (b.buf ++ l ∷ []))))
  where
    step :
        (full : Bool)
        → all_of (if full then flush true (add_line l b) else add_line l b) ≡ all_of b ++ l ∷ []
    step true = all_of-flush (add_line l b) ∙ sym (append_assoc (concat b.stored) b.buf (l ∷ []))
    step false = sym (append_assoc (concat b.stored) b.buf (l ∷ []))

all_of-batch_lines :
    (b : Batcher) (ss : List Signal)
    → AcceptsAll ss
    → all_of (batch_lines b ss true) ≡ all_of b ++ sent ss
unfolding batch_lines
all_of-batch_lines b [] h = all_of-flush b ∙ sym (append-nil (all_of b))
all_of-batch_lines b (line l a ∷ ss) h =
    all_of-batch_lines (on_signal b (line l a)) ss h.1
    ∙ ap (λ t. t ++ sent ss) (all_of-on_signal b (line l a) (h.0, tt))
    ∙ append_assoc (all_of b) (l ∷ []) (sent ss)
all_of-batch_lines b (tick a ∷ ss) h =
    all_of-batch_lines (on_signal b (tick a)) ss h.1
    ∙ ap (λ t. t ++ sent ss) (all_of-on_signal b (tick a) (h.0, tt))
    ∙ append_assoc (all_of b) [] (sent ss)

batch_lines-buf : (b : Batcher) (ss : List Signal) (a : Bool) → (batch_lines b ss a).buf ≡ []
unfolding batch_lines
batch_lines-buf b [] a = flush-buf a b
batch_lines-buf b (s ∷ ss) a = batch_lines-buf (on_signal b s) ss a

-- Where the store takes every batch, what is stored once the channel is closed is what was sent:
-- every line, once, in order.
pub batch_lines_complete :
    (ss : List Signal) → AcceptsAll ss → concat (batch_lines fresh ss true).stored ≡ sent ss
batch_lines_complete ss h =
    sym (append-nil _)
    ∙ ap (λ t. concat (batch_lines fresh ss true).stored ++ t) (sym (batch_lines-buf fresh ss true))
    ∙ all_of-batch_lines fresh ss h
