-- ===== src/Book/Simulation.antt =====
-- Histories of venue/include/flox-venue/matching_book.h as histories of the abstract book.
use venue_core.Prelude.{
  Option, none, List, ◌∷◌, ◌++◌, Option-cases, inl, inr, arith, ◌≡◌, refl, sym, ap, ◌∙◌, some, [],
}
use venue_core.Types.{Side}
use venue_core.Book.History.{Step, Reach, Reach-WellFormed}
use venue_core.Book.Queue.{Queues, queues, queue_of, head, Call, call, queue_call}
use venue_core.Book.Refinement.{view, call-view, peek_best-head}
use venue_core.Book.{Book, empty_book, peek_best}

abbrev pub no_orders : Queues
no_orders = record { bids = []; asks = [] }

-- The call that a step makes.
unfoldable pub call_of : {b b' : Book} → Step b b' → Call
call_of (Step.adds s o a) = Call.adds s o
call_of (Step.reduces id n h) = Call.reduces id n
call_of (Step.trims id n h k) = Call.trims id n
call_of (Step.consumes id by e) = Call.consumes id by
call_of (Step.fills s by e) = Call.fills s by
call_of (Step.cancels id) = Call.cancels id

-- The calls of a history, the first one first.
unfoldable pub calls_of : {b : Book} → Reach b → List Call
unfolding call_of
calls_of Reach.start = []
calls_of (Reach.next r st) = calls_of r ++ (call_of st ∷ [])

Step-call : (b b' : Book) (st : Step b b') → call (call_of st) b ≡ some b'
unfolding call call_of
Step-call b b' (Step.adds s o a) = refl
Step-call b b' (Step.reduces id n h) = refl
Step-call b b' (Step.trims id n h k) = refl
Step-call b b' (Step.consumes id by e) = e
Step-call b b' (Step.fills s by e) = e
Step-call b b' (Step.cancels id) = refl

module _ {S : Type 0} (act : Call → S → Option S) where
  -- The calls one after another, as long as none of them faults.
  unfoldable pub run_all : List Call → S → Option S
  run_all [] s = some s
  run_all (c ∷ cs) s = elim (act c s) [ none ↦ none | some s' ↦ run_all cs s' ]

  run_all-first :
      (c : Call) (cs : List Call) (s s' : S)
      → act c s ≡ some s'
      → run_all (c ∷ cs) s ≡ run_all cs s'
  unfolding run_all
  run_all-first c cs s s' e = rw (e, run_all) refl

  run_all-last :
      (cs : List Call) (c : Call) (s s' s'' : S)
      → run_all cs s ≡ some s'
      → act c s' ≡ some s''
      → run_all (cs ++ (c ∷ [])) s ≡ some s''
  unfolding run_all
  run_all-last [] c s s' s'' e f =
      let same : s ≡ s' = ground (arith, e) in run_all-first c [] s s'' (ap (act c) same ∙ f)
  run_all-last (d ∷ cs) c s s' s'' e f = elim (Option-cases (act d s)) [
    | inl n ↦ absurd (ground (arith, n, e))
    | inr (s1, g) ↦
        run_all-first d (cs ++ (c ∷ [])) s s1 g
        ∙ run_all-last cs c s1 s' s'' (sym (run_all-first d cs s s1 g) ∙ e) f
  ]

Reach-run_all : {b : Book} (r : Reach b) → run_all call (calls_of r) empty_book ≡ some b
unfolding calls_of run_all
Reach-run_all Reach.start = refl
Reach-run_all (Reach.next {b = b} {b' = b'} r st) =
    run_all-last call (calls_of r) (call_of st) empty_book b b' (Reach-run_all r)
      (Step-call b b' st)

Reach-run_queues :
    {b : Book} (r : Reach b) → run_all queue_call (calls_of r) no_orders ≡ some (queues b)
unfolding calls_of run_all
Reach-run_queues Reach.start = refl
Reach-run_queues (Reach.next {b = b} {b' = b'} r st) =
    run_all-last queue_call (calls_of r) (call_of st) no_orders (queues b) (queues b')
      (Reach-run_queues r)
      (sym (call-view (call_of st) b (Reach-WellFormed r)) ∙ ap view (Step-call b b' st))

-- The calls of a history within their contracts, made one after another on the empty book, give its
-- book, and the very same calls on two empty lists of orders, which have no levels and no index,
-- give the two sides of that book in the order of their priority; the best order of a side is the
-- head of its list.
pub Reach-refines :
    (s : Side) {b : Book} (r : Reach b)
    → (run_all call (calls_of r) empty_book ≡ some b)
      × (run_all queue_call (calls_of r) no_orders ≡ some (queues b))
      × (peek_best s b ≡ head (queue_of s (queues b)))
Reach-refines s {b} r =
    (Reach-run_all r, Reach-run_queues r, peek_best-head s b (Reach-WellFormed r))
