-- ===== src/Feed/History.antt =====
-- Whole feeds and resets of GapDetector, venue/include/flox-venue/resend_buffer.h.
use venue_core.Prelude.{
  ℕ, suc, ◌≤◌, ◌<◌, ◌≡◌, refl, ap, ◌∙◌, Bool, true, false, not, is_empty, leb, Bool-cases,
  if◌then◌else◌, inl, inr, List, [], ◌∷◌, ◌++◌, All, length, ltb, ◌==◌, if-split, append-nil, map,
  arith,
}
use venue_core.Feed.{
  MdMessage, Config, Stream, Call, delivered, inc64, emplace, drain_held, hold_ahead, accept,
  drop_below, observe_stream, reset_stream,
}
use venue_core.Feed.Order.{
  From, Run, Rising-append, WellFormed, Drained, drain_held-Drained, deliveries, deliveries-append,
  deliveries-map, deliveries-gap_alone, InOrder, observe_stream-InOrder, Current, Kept,
  reraise-Kept, enter_epoch-current, inc64-small,
}

module _ {ℓ} {P : Type ℓ} (cfg : Config) (on_gap on_epoch : Bool) where
  -- A feed, message by message.
  unfoldable pub observe_all : List (MdMessage P) → Stream P → Stream P × List (Call P)
  observe_all [] s = (s, [])
  observe_all (m ∷ ms) s =
      let (s', calls) = observe_stream cfg on_gap on_epoch m s in
      let (s'', calls') = observe_all ms s' in (s'', calls ++ calls')

  -- Whatever messages of its epoch a well-formed stream receives, reordered, repeated or with
  -- holes, it delivers them with strictly rising seqs, none below the one it expected nor from
  -- the one it expects afterwards on, so each seq at most once; and it stays well formed. The
  -- seqs are those before the last of uint64_t.
  pub observe_all-InOrder :
      (ms : List (MdMessage P)) (s : Stream P)
      → WellFormed s
      → s.epoch_set ≡ true
      → All (λ (m : MdMessage P). Current s.epoch m) ms
      → InOrder s (observe_all ms s)
  unfolding observe_all InOrder deliveries
  observe_all-InOrder [] s h set current = (h, omega arith, set, refl)
  observe_all-InOrder (m ∷ ms) s h set current =
      let s' = (observe_stream cfg on_gap on_epoch m s).0 in
      let (h', rising, set', same) =
        observe_stream-InOrder cfg on_gap on_epoch m s h set current.0 in
      let (h'', rising', set'', same') = observe_all-InOrder ms s' h' set' (rw same current.1) in
      (
        h'',
        rw deliveries-append (Rising-append s.next s'.next _ _ _ rising rising'),
        set'',
        same' ∙ same,
      )

module _ {ℓ} {P : Type ℓ} where
  Runs : Stream P → Stream P × Bool × List (Call P) → Type 0
  unfolding Run
  Runs s (s', fresh_gap, calls) = Run s.next s'.next (deliveries calls)

  accept-Run :
      (cfg : Config) (on_gap : Bool) (m : MdMessage P) (s : Stream P)
      → WellFormed s
      → suc m.seq < 18446744073709551616
      → length (emplace m.seq m s.held).0 ≤ cfg.max_held
      → Runs s (accept cfg on_gap m s)
  unfolding accept hold_ahead Runs deliveries Drained WellFormed
  accept-Run cfg on_gap m s h small fits =
      if-split (Runs s) (m.seq == s.next) (λ e. in_order (ground arith))
        (λ e.
          if-split (Runs s) (ltb s.next m.seq)
            (λ e1.
              if-split (Runs s) (ltb cfg.max_held (length (emplace m.seq m s.held).0))
                (λ e2. ground arith) (λ e2. rw (deliveries-gap_alone _ _ _ _) refl))
            (λ e1. refl))
    where
      in_order :
          m.seq ≡ s.next
          → (let (next, held, out) = drain_held (inc64 s.next) s.held in
              Runs s
                (record s { next = next; held = held }, false, delivered m ∷ map delivered out))
      in_order e =
          let small' : suc s.next < 18446744073709551616 = omega (arith, e, small) in
          let (from, run, less) = drain_held-Drained (suc s.next) s.held h.0 small' in
          rw (inc64-small s.next small', deliveries-map) (e, run)

  -- As long as the messages held fit, a message of the stream's epoch makes it deliver the seqs
  -- from the expected one on without a hole, up to the one expected next.
  pub observe_stream-Run :
      (cfg : Config) (on_gap on_epoch : Bool) (m : MdMessage P) (s : Stream P)
      → WellFormed s
      → s.epoch_set ≡ true
      → Current s.epoch m
      → length (emplace m.seq m s.held).0 ≤ cfg.max_held
      → (let (s', calls) = observe_stream cfg on_gap on_epoch m s in
          Run s.next s'.next (deliveries calls))
  unfolding observe_stream Kept Current Run Runs
  observe_stream-Run cfg on_gap on_epoch m s h set current fits =
      let (s2, fresh_gap, calls) = accept cfg on_gap m s in
      let (same_next, same_held, kept_epoch, kept_set, quiet) =
        reraise-Kept cfg on_gap m.symbol fresh_gap s2 in
      rw
        (
          enter_epoch-current on_epoch m s set current.0,
          same_next,
          deliveries-append,
          quiet,
          append-nil,
        )
        (accept-Run cfg on_gap m s h current.1 fits)

  drop_below-From :
      (n lo : ℕ) (held : List (ℕ × MdMessage P)) → From lo held → From n (drop_below n held)
  unfolding From
  drop_below-From n lo [] h = tt
  drop_below-From n lo ((k, m) ∷ rest) h =
      if-split (From n) (ltb k n) (λ e. drop_below-From n (suc k) rest h.3)
        (λ e. (ground arith, h.1, h.2, h.3))

  -- The held messages with the seq `n` or a later one.
  unfoldable pub held_from : ℕ → List (ℕ × MdMessage P) → List (MdMessage P)
  held_from n [] = []
  held_from n ((k, m) ∷ rest) = let rest' = held_from n rest in if leb n k then m ∷ rest' else rest'

  held_from-all :
      (n lo : ℕ) (held : List (ℕ × MdMessage P))
      → From lo held
      → n ≤ lo
      → held_from n held ≡ map (λ e. e.1) held
  unfolding From held_from
  held_from-all n lo [] h le = refl
  held_from-all n lo ((k, m) ∷ rest) h le =
      let there : leb n k ≡ true = ground (arith, h.0, le) in
      rw there (ap (λ ms. m ∷ ms) (held_from-all n (suc k) rest h.3 (omega (arith, h.0, le))))

  held_from-drop_below :
      (n lo : ℕ) (held : List (ℕ × MdMessage P))
      → From lo held
      → held_from n held ≡ map (λ e. e.1) (drop_below n held)
  unfolding From held_from
  held_from-drop_below n lo [] h = refl
  held_from-drop_below n lo ((k, m) ∷ rest) h = elim (Bool-cases (ltb k n)) [
    | inl e ↦
        let below : leb n k ≡ false = ground (arith, e) in
        rw (below, e) (held_from-drop_below n (suc k) rest h.3)
    | inr e ↦
        let there : leb n k ≡ true = ground (arith, e) in
        rw (there, e) (ap (λ ms. m ∷ ms) (held_from-all n (suc k) rest h.3 (ground (arith, e))))
  ]

  -- What is drained and what stays held are together what was held, in its order.
  held-drain_held :
      (next : ℕ) (held : List (ℕ × MdMessage P))
      → (let (next', held', out) = drain_held next held in
          map (λ e. e.1) held ≡ out ++ map (λ e. e.1) held')
  unfolding drain_held
  held-drain_held next [] = refl
  held-drain_held next ((k, m) ∷ rest) =
      if-split {A = ℕ × List (ℕ × MdMessage P) × List (MdMessage P)}
        (λ r. map (λ e. e.1) ((k, m) ∷ rest) ≡ r.2 ++ map (λ e. e.1) r.1) (k == next)
        (λ e. ap (λ ms. m ∷ ms) (held-drain_held (inc64 next) rest)) (λ e. refl)

  -- A reset with a deliver callback, on any well-formed stream: of the held messages from the given
  -- seq on it delivers a first part and keeps all the others, in their order; those delivered have
  -- the seqs from the given one on without a hole, up to the one expected afterwards, which no kept
  -- message has, so no more could be delivered; the stream is well formed in the given epoch, and
  -- its gap is open exactly if something is kept.
  pub reset_stream-Run :
      (epoch next_seq : ℕ) (s : Stream P)
      → WellFormed s
      → next_seq < 18446744073709551616
      → (let (s', calls) = reset_stream true epoch next_seq s in
          WellFormed s'
          × Run next_seq s'.next (deliveries calls)
          × (held_from next_seq s.held ≡ deliveries calls ++ map (λ e. e.1) s'.held)
          × (s'.epoch ≡ epoch)
          × (s'.epoch_set ≡ true)
          × (s'.gap_open ≡ not (is_empty s'.held)))
  unfolding reset_stream WellFormed Drained
  reset_stream-Run epoch next_seq s h small =
      let kept = drop_below next_seq s.held in
      let (from, run, less) =
        drain_held-Drained next_seq kept (drop_below-From next_seq (suc s.next) s.held h.0) small in
      let all =
        held_from-drop_below next_seq (suc s.next) s.held h.0 ∙ held-drain_held next_seq kept in
      ((from, less), rw deliveries-map run, rw deliveries-map all, refl, refl, refl)
