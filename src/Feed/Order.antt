-- ===== src/Feed/Order.antt =====
-- One message through GapDetector of venue/include/flox-venue/resend_buffer.h: what the stream
-- keeps between calls and in what order it delivers.
use venue_core.Prelude.{
  ℕ, zero, suc, ◌≤◌, ◌<◌, ◌≡◌, refl, ◌∙◌, append-nil, Bool, true, false, not, ◌&&◌, is_empty, List,
  [], ◌∷◌, ◌++◌, map, length, ltb, leb, ◌==◌, if◌then◌else◌, if-split, ap, arith,
}
use venue_core.Feed.{
  MdMessage, Config, Stream, Call, delivered, gap, epoch_changed, inc64, emplace, drain_held,
  abandon_gap, enter_epoch, hold_ahead, accept, reraise, observe_stream,
}

pub inc64-small : (n : ℕ) → suc n < 18446744073709551616 → inc64 n ≡ suc n
inc64-small n h = omega (arith, h)

module _ {ℓ} {P : Type ℓ} where
  -- The keys rise strictly from `lo` on, are the seqs of their messages, and do not reach the end
  -- of the range of uint64_t.
  unfoldable pub From : ℕ → List (ℕ × MdMessage P) → Type 0
  From lo [] = Unit
  From lo ((k, m) ∷ rest) =
      (lo ≤ k) × (suc k < 18446744073709551616) × (m.seq ≡ k) × From (suc k) rest

  -- The messages have the seqs from `lo` on, each the next one, up to `hi`.
  unfoldable pub Run : ℕ → ℕ → List (MdMessage P) → Type 0
  Run lo hi [] = lo ≡ hi
  Run lo hi (m ∷ out) = (m.seq ≡ lo) × Run (suc lo) hi out

  -- The messages have rising seqs, from `lo` on and below `hi`.
  unfoldable pub Rising : ℕ → ℕ → List (MdMessage P) → Type 0
  Rising lo hi [] = lo ≤ hi
  Rising lo hi (m ∷ out) = (lo ≤ m.seq) × Rising (suc m.seq) hi out

  unfoldable pub deliveries : List (Call P) → List (MdMessage P)
  deliveries [] = []
  deliveries (delivered m ∷ calls) = m ∷ deliveries calls
  deliveries (gap symbol epoch from_seq ∷ calls) = deliveries calls
  deliveries (epoch_changed symbol old new ∷ calls) = deliveries calls

  From-lower :
      (lo lo' : ℕ) (held : List (ℕ × MdMessage P)) → From lo held → lo' ≤ lo → From lo' held
  unfolding From
  From-lower lo lo' [] h le = tt
  From-lower lo lo' ((k, m) ∷ rest) h le = (omega (arith, h.0, le), h.1, h.2, h.3)

  Rising-lower :
      (lo lo' hi : ℕ) (out : List (MdMessage P)) → Rising lo hi out → lo' ≤ lo → Rising lo' hi out
  unfolding Rising
  Rising-lower lo lo' hi [] h le = omega (arith, h, le)
  Rising-lower lo lo' hi (m ∷ out) h le = (omega (arith, h.0, le), h.1)

  pub Rising-append :
      (lo mid hi : ℕ) (xs ys : List (MdMessage P))
      → Rising lo mid xs
      → Rising mid hi ys
      → Rising lo hi (xs ++ ys)
  unfolding Rising
  Rising-append lo mid hi [] ys hx hy = Rising-lower mid lo hi ys hy hx
  Rising-append lo mid hi (m ∷ xs) ys hx hy = (hx.0, Rising-append (suc m.seq) mid hi xs ys hx.1 hy)

  Rising-le : (lo hi : ℕ) (out : List (MdMessage P)) → Rising lo hi out → lo ≤ hi
  unfolding Rising
  Rising-le lo hi [] h = h
  Rising-le lo hi (m ∷ out) h = omega (arith, h.0, Rising-le (suc m.seq) hi out h.1)

  pub Run-Rising : (lo hi : ℕ) (out : List (MdMessage P)) → Run lo hi out → Rising lo hi out
  unfolding Run Rising
  Run-Rising lo hi [] h = omega (arith, h)
  Run-Rising lo hi (m ∷ out) h = (omega (arith, h.0), rw (h.0) (Run-Rising (suc lo) hi out h.1))

  -- A weight of the messages of held entries.
  abbrev pub weigh : (MdMessage P → ℕ) → (ℕ × MdMessage P) → ℕ
  weigh f entry = f entry.1

  unfoldable pub Drained : ℕ → ℕ × List (ℕ × MdMessage P) × List (MdMessage P) → Type 0
  unfolding From Run
  Drained next (next', held', out) =
      From (suc next') held' × Run next next' out × (next' < 18446744073709551616)

  pub drain_held-Drained :
      (next : ℕ) (held : List (ℕ × MdMessage P))
      → From next held
      → next < 18446744073709551616
      → Drained next (drain_held next held)
  unfolding drain_held Drained
  drain_held-Drained next [] h small = (tt, refl, small)
  drain_held-Drained next ((k, m) ∷ rest) h small =
      if-split (Drained next) (k == next)
        (λ e. drained-more (k_eq e) (drain_held-Drained (suc next) rest))
        (λ e. ((ground arith, h.1, h.2, h.3), refl, small))
    where
      k_eq : (k == next) ≡ true → k ≡ next
      k_eq e = ground arith

      drained-more :
          k ≡ next
          → (From (suc next) rest
              → suc next < 18446744073709551616
              → Drained (suc next) (drain_held (suc next) rest))
          → (let (next', rest', out) = drain_held (inc64 next) rest in
              Drained next (next', rest', m ∷ out))
      drained-more e ih =
          let small' : suc next < 18446744073709551616 = omega (arith, e, h.1) in
          let (above, run, less) =
            ih (From-lower (suc k) (suc next) rest h.3 (omega (arith, e))) small' in
          rw (inc64-small next small') (above, (omega (arith, e, h.2), run), less)

  unfoldable pub Abandoned : ℕ → ℕ × List (ℕ × MdMessage P) × List (MdMessage P) → Type 0
  unfolding From Rising
  Abandoned next (next', held', out) =
      From (suc next') held' × Rising next next' out × (next' < 18446744073709551616)

  pub abandon_gap-Abandoned :
      (fuel next : ℕ) (held : List (ℕ × MdMessage P))
      → From (suc next) held
      → next < 18446744073709551616
      → Abandoned next (abandon_gap fuel next held)
  unfolding abandon_gap Abandoned Drained
  abandon_gap-Abandoned zero next held h small = (h, omega arith, small)
  abandon_gap-Abandoned (suc fuel) next [] h small = (tt, omega arith, small)
  abandon_gap-Abandoned (suc fuel) next ((k, m) ∷ rest) h small =
      let (from, run, less) =
        drain_held-Drained k ((k, m) ∷ rest) (omega arith, h.1, h.2, h.3) (omega (arith, h.1)) in
      let (from', rising, less') = abandon_gap-Abandoned fuel _ _ from less in
      (
        from',
        Rising-lower k next _ _ (Rising-append k _ _ _ _ (Run-Rising k _ _ run) rising)
            (omega (arith, h.0)),
        less',
      )

  pub emplace-From :
      (lo k : ℕ) (m : MdMessage P) (held : List (ℕ × MdMessage P))
      → From lo held
      → lo ≤ k
      → suc k < 18446744073709551616
      → m.seq ≡ k
      → From lo (emplace k m held).0
  unfolding emplace From
  emplace-From lo k m [] h le small e = (le, small, e, tt)
  emplace-From lo k m ((j, x) ∷ rest) h le small e =
      let rest' = emplace-From (suc j) k m rest h.3 in
      if-split {A = List (ℕ × MdMessage P) × Bool} (λ r. From lo r.0) (ltb k j)
        (λ e1. (le, small, e, (ground arith, h.1, h.2, h.3)))
        (λ e1.
          if-split {A = List (ℕ × MdMessage P) × Bool} (λ r. From lo r.0) (k == j) (λ e2. h)
            (λ e2. (h.0, h.1, h.2, rest' (ground arith) small e)))

  -- What holds of a stream between two calls: the keys held rise from above the next seq on.
  unfoldable pub WellFormed : Stream P → Type 0
  unfolding From
  WellFormed s = From (suc s.next) s.held × (s.next < 18446744073709551616)

  pub deliveries-append :
      (xs ys : List (Call P)) → deliveries (xs ++ ys) ≡ deliveries xs ++ deliveries ys
  unfolding deliveries
  deliveries-append [] ys = refl
  deliveries-append (delivered m ∷ xs) ys = ap (λ zs. m ∷ zs) (deliveries-append xs ys)
  deliveries-append (gap symbol epoch from_seq ∷ xs) ys = deliveries-append xs ys
  deliveries-append (epoch_changed symbol old new ∷ xs) ys = deliveries-append xs ys

  pub deliveries-map : (out : List (MdMessage P)) → deliveries (map delivered out) ≡ out
  unfolding deliveries
  deliveries-map [] = refl
  deliveries-map (m ∷ out) = ap (λ zs. m ∷ zs) (deliveries-map out)

  pub deliveries-gap :
      (b : Bool) (symbol epoch from_seq : ℕ) (calls : List (Call P))
      → deliveries ((if b then gap symbol epoch from_seq ∷ [] else []) ++ calls) ≡ deliveries calls
  unfolding deliveries
  deliveries-gap true symbol epoch from_seq calls = refl
  deliveries-gap false symbol epoch from_seq calls = refl

  pub deliveries-gap_alone :
      (b : Bool) (symbol epoch from_seq : ℕ)
      → deliveries (if b then gap symbol epoch from_seq ∷ [] else []) ≡ []
  unfolding deliveries
  deliveries-gap_alone true symbol epoch from_seq = refl
  deliveries-gap_alone false symbol epoch from_seq = refl

  unfoldable pub Accepted : Stream P → Stream P × Bool × List (Call P) → Type 0
  unfolding WellFormed Rising
  Accepted s (s', fresh_gap, calls) = WellFormed s' × Rising s.next s'.next (deliveries calls)

  hold_ahead-Accepted :
      (cfg : Config) (on_gap : Bool) (m : MdMessage P) (s : Stream P)
      → WellFormed s
      → s.next < m.seq
      → suc m.seq < 18446744073709551616
      → Accepted s (hold_ahead cfg on_gap m s)
  unfolding hold_ahead Accepted Abandoned
  hold_ahead-Accepted cfg on_gap m s h ahead small =
      let held = (emplace m.seq m s.held).0 in
      let from : From (suc s.next) held =
        emplace-From (suc s.next) m.seq m s.held h.0 (omega (arith, ahead)) small refl in
      let (from', rising, less) = abandon_gap-Abandoned (length held) s.next held from h.1 in
      if-split (Accepted s) (ltb cfg.max_held (length held))
        (λ e. ((from', less), rw (deliveries-gap _ _ _ _ _, deliveries-map) rising))
        (λ e. ((from, h.1), rw (deliveries-gap_alone _ _ _ _) (omega arith)))

  pub accept-Accepted :
      (cfg : Config) (on_gap : Bool) (m : MdMessage P) (s : Stream P)
      → WellFormed s
      → suc m.seq < 18446744073709551616
      → Accepted s (accept cfg on_gap m s)
  unfolding accept Accepted deliveries Drained
  accept-Accepted cfg on_gap m s h small =
      if-split (Accepted s) (m.seq == s.next) (λ e. in_order (ground arith))
        (λ e.
          if-split (Accepted s) (ltb s.next m.seq)
            (λ e1. hold_ahead-Accepted cfg on_gap m s h (ground arith) small)
            (λ e1. (h, omega arith)))
    where
      in_order :
          m.seq ≡ s.next
          → (let (next, held, out) = drain_held (inc64 s.next) s.held in
              Accepted s
                (record s { next = next; held = held }, false, delivered m ∷ map delivered out))
      in_order e =
          let small' : suc s.next < 18446744073709551616 = omega (arith, e, small) in
          let (from, run, less) = drain_held-Drained (suc s.next) s.held h.0 small' in
          rw (inc64-small s.next small', deliveries-map)
            ((from, less), (omega (arith, e), rw e (Run-Rising (suc s.next) _ _ run)))

  -- The re-report moves no message.
  unfoldable pub Kept : Stream P → Stream P × List (Call P) → Type ℓ
  Kept s (s', calls) =
      (s'.next ≡ s.next)
      × (s'.held ≡ s.held)
      × (s'.epoch ≡ s.epoch)
      × (s'.epoch_set ≡ s.epoch_set)
      × (deliveries calls ≡ [])

  pub reraise-Kept :
      (cfg : Config) (on_gap : Bool) (symbol : ℕ) (fresh_gap : Bool) (s : Stream P)
      → Kept s (reraise cfg on_gap symbol fresh_gap s)
  unfolding reraise deliveries Kept
  reraise-Kept cfg on_gap symbol fresh_gap s =
      if-split (Kept s) (not (is_empty s.held) && not fresh_gap)
        (λ e.
          if-split (Kept s) (leb cfg.reraise_after (inc64 s.since_report))
            (λ e1. (refl, refl, refl, refl, deliveries-gap_alone on_gap symbol s.epoch s.next))
            (λ e1. (refl, refl, refl, refl, refl)))
        (λ e. (refl, refl, refl, refl, refl))

  pub accept-epoch :
      (cfg : Config) (on_gap : Bool) (m : MdMessage P) (s : Stream P)
      → ((accept cfg on_gap m s).0.epoch ≡ s.epoch)
        × ((accept cfg on_gap m s).0.epoch_set ≡ s.epoch_set)
  unfolding accept hold_ahead
  accept-epoch cfg on_gap m s = ground arith

  -- A message of the given epoch.
  unfoldable pub Current : ℕ → MdMessage P → Type 0
  Current epoch m = (m.epoch ≡ epoch) × (suc m.seq < 18446744073709551616)

  pub enter_epoch-current :
      (on_epoch : Bool) (m : MdMessage P) (s : Stream P)
      → s.epoch_set ≡ true
      → m.epoch ≡ s.epoch
      → enter_epoch on_epoch m s ≡ (s, [])
  unfolding enter_epoch
  enter_epoch-current on_epoch m s set e =
      if-split {A = Stream P × List (Call P)} (λ r. r ≡ (s, [])) (not s.epoch_set)
        (λ e1. ground arith)
        (λ e1.
          if-split {A = Stream P × List (Call P)} (λ r. r ≡ (s, [])) (m.epoch == s.epoch)
            (λ e2. refl) (λ e2. ground arith))

  unfoldable pub InOrder : Stream P → Stream P × List (Call P) → Type 0
  unfolding WellFormed Rising
  InOrder s (s', calls) =
      WellFormed s'
      × Rising s.next s'.next (deliveries calls)
      × (s'.epoch_set ≡ true)
      × (s'.epoch ≡ s.epoch)

  pub observe_stream-InOrder :
      (cfg : Config) (on_gap on_epoch : Bool) (m : MdMessage P) (s : Stream P)
      → WellFormed s
      → s.epoch_set ≡ true
      → Current s.epoch m
      → InOrder s (observe_stream cfg on_gap on_epoch m s)
  unfolding observe_stream InOrder Current Accepted Kept
  observe_stream-InOrder cfg on_gap on_epoch m s h set current =
      let (same_epoch, same_set) = accept-epoch cfg on_gap m s in
      let (s2, fresh_gap, calls) = accept cfg on_gap m s in
      let (well_formed, rising) = accept-Accepted cfg on_gap m s h current.1 in
      let (same_next, same_held, kept_epoch, kept_set, quiet) =
        reraise-Kept cfg on_gap m.symbol fresh_gap s2 in
      rw
        (
          enter_epoch-current on_epoch m s set current.0,
          same_next,
          same_held,
          kept_epoch,
          kept_set,
          deliveries-append,
          quiet,
          append-nil,
        )
        (well_formed, rising, same_set ∙ set, same_epoch)
