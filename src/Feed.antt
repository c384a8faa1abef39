-- ===== src/Feed.antt =====
-- The client's market-data sequencer, GapDetector of venue/include/flox-venue/resend_buffer.h.
-- A message keeps the fields that the detector reads; the rest of it is the parameter `P`, which
-- the detector only passes on. The map of streams is a function of the symbol, an unseen symbol
-- having the default stream, which is what `operator[]` inserts. The callbacks are the list of
-- the calls made, in order; `on_gap` and `on_epoch` tell whether the caller passed one.
pub mod Order
pub mod History
use venue_core.Prelude.{
  ℕ, zero, suc, ◌+◌, ◌-◌, ◌%◌, ◌≤◌, ◌<◌, ◌≡◌, refl, Bool, true, false, is_empty, ◌&&◌, not, List,
  [], ◌∷◌, ◌++◌, map, length, ltb, leb, ◌==◌, if◌then◌else◌, arith,
}

pub record MdMessage {ℓ} (P : Type ℓ) : Type ℓ where
  pub seq : ℕ
  pub symbol : ℕ
  pub epoch : ℕ
  pub payload : P

pub record Config : Type 0 where
  pub reraise_after : ℕ
  pub max_held : ℕ

pub record Stream {ℓ} (P : Type ℓ) : Type ℓ where
  pub epoch : ℕ
  pub epoch_set : Bool
  pub next : ℕ
  pub held : List (ℕ × MdMessage P)
  pub gap_open : Bool
  pub since_report : ℕ

pub data Call {ℓ} (P : Type ℓ) : Type ℓ where
  delivered : MdMessage P → Call P
  gap : (symbol epoch from_seq : ℕ) → Call P
  epoch_changed : (symbol old_epoch new_epoch : ℕ) → Call P

-- `++` on a uint64_t.
abbrev pub inc64 : ℕ → ℕ
inc64 n = (n + 1) % 18446744073709551616

-- An unseen symbol has the default stream.
abbrev pub Streams {ℓ} : Type ℓ → Type ℓ
Streams P = ℕ → Stream P

module _ {ℓ} {P : Type ℓ} where
  abbrev pub fresh_stream : Stream P
  fresh_stream = record {
    epoch = 0;
    epoch_set = false;
    next = 1;
    held = [];
    gap_open = false;
    since_report = 0;
  }

  -- A new key is put in order; a key already there keeps its message, and the flag is false.
  unfoldable pub emplace : ℕ → MdMessage P → List (ℕ × MdMessage P) → List (ℕ × MdMessage P) × Bool
  emplace k m [] = ((k, m) ∷ [], true)
  emplace k m ((j, x) ∷ rest) =
      let (rest', fresh) = emplace k m rest in
      if ltb k j
      then ((k, m) ∷ (j, x) ∷ rest, true)
      else if k == j
      then ((j, x) ∷ rest, false)
      else ((j, x) ∷ rest', fresh)

  -- The held run that starts at `next`: what is left, the next seq, and what was delivered.
  unfoldable pub drain_held :
      ℕ → List (ℕ × MdMessage P) → ℕ × List (ℕ × MdMessage P) × List (MdMessage P)
  drain_held next [] = (next, [], [])
  drain_held next ((k, m) ∷ rest) =
      let (next', rest', out) = drain_held (inc64 next) rest in
      if k == next then (next', rest', m ∷ out) else (next, (k, m) ∷ rest, [])

  unfoldable pub abandon_gap :
      ℕ → ℕ → List (ℕ × MdMessage P) → ℕ × List (ℕ × MdMessage P) × List (MdMessage P)
  abandon_gap zero next held = (next, held, [])
  abandon_gap (suc fuel) next [] = (next, [], [])
  abandon_gap (suc fuel) next ((k, m) ∷ rest) =
      let (next', rest', out) = drain_held k ((k, m) ∷ rest) in
      let (next'', rest'', out') = abandon_gap fuel next' rest' in (next'', rest'', out ++ out')

  -- The stream after the epoch check, and the call it made.
  unfoldable pub enter_epoch : Bool → MdMessage P → Stream P → Stream P × List (Call P)
  enter_epoch on_epoch m s =
      if not s.epoch_set
      then (record s { epoch = m.epoch; epoch_set = true }, [])
      else if m.epoch == s.epoch
      then (s, [])
      else (
        record fresh_stream { epoch = m.epoch; epoch_set = true },
        (if on_epoch then epoch_changed m.symbol s.epoch m.epoch ∷ [] else []),
      )

  -- A message ahead of the next seq: the stream, whether a gap was opened, and the calls made.
  unfoldable pub hold_ahead :
      Config → Bool → MdMessage P → Stream P → Stream P × Bool × List (Call P)
  hold_ahead cfg on_gap m s =
      let (held, fresh) = emplace m.seq m s.held in
      let opens = fresh && not s.gap_open in
      let opened = record s {
        held = held;
        gap_open = (if opens then true else s.gap_open);
        since_report = (if opens then 0 else s.since_report);
      } in
      let calls = if opens && on_gap then gap m.symbol s.epoch s.next ∷ [] else [] in
      let (next, rest, out) = abandon_gap (length held) s.next held in
      if ltb cfg.max_held (length held)
      then (record opened { next = next; held = rest }, opens, calls ++ map delivered out)
      else (opened, opens, calls)

  -- The stream after the seq check, whether a gap was opened, and the calls made.
  unfoldable pub accept : Config → Bool → MdMessage P → Stream P → Stream P × Bool × List (Call P)
  accept cfg on_gap m s =
      if m.seq == s.next
      then (let (next, held, out) = drain_held (inc64 s.next) s.held in
          (record s { next = next; held = held }, false, delivered m ∷ map delivered out))
      else if ltb s.next m.seq
      then hold_ahead cfg on_gap m s
      else (s, false, [])

  -- The re-report of a gap that stays open.
  unfoldable pub reraise : Config → Bool → ℕ → Bool → Stream P → Stream P × List (Call P)
  reraise cfg on_gap symbol fresh_gap s =
      let held_open = not (is_empty s.held) in
      let counted = inc64 s.since_report in
      if held_open && not fresh_gap
      then (if leb cfg.reraise_after counted
          then (
            record s { gap_open = held_open; since_report = 0 },
            (if on_gap then gap symbol s.epoch s.next ∷ [] else []),
          )
          else (record s { gap_open = held_open; since_report = counted }, []))
      else (record s { gap_open = held_open }, [])

  unfoldable pub observe_stream :
      Config → Bool → Bool → MdMessage P → Stream P → Stream P × List (Call P)
  unfolding enter_epoch accept reraise
  observe_stream cfg on_gap on_epoch m s0 =
      let (s1, epochs) = enter_epoch on_epoch m s0 in
      let (s2, fresh_gap, calls) = accept cfg on_gap m s1 in
      let (s3, again) = reraise cfg on_gap m.symbol fresh_gap s2 in (s3, epochs ++ calls ++ again)

  abbrev pub put_stream : Streams P → ℕ → Stream P → Streams P
  put_stream streams symbol s n = if n == symbol then s else streams n

  unfoldable pub observe :
      Config → Bool → Bool → MdMessage P → Streams P → Streams P × List (Call P)
  unfolding observe_stream
  observe cfg on_gap on_epoch m streams =
      let (s, calls) = observe_stream cfg on_gap on_epoch m (streams m.symbol) in
      (put_stream streams m.symbol s, calls)

  abbrev pub drop_below : ℕ → List (ℕ × MdMessage P) → List (ℕ × MdMessage P)
  drop_below n [] = []
  drop_below n ((k, m) ∷ rest) = if ltb k n then drop_below n rest else (k, m) ∷ rest

  unfoldable pub reset_stream : Bool → ℕ → ℕ → Stream P → Stream P × List (Call P)
  unfolding drain_held
  reset_stream deliver epoch next_seq s =
      let kept = drop_below next_seq s.held in
      let (next, held, out) = drain_held next_seq kept in
      if deliver
      then (
        record {
          epoch = epoch;
          epoch_set = true;
          next = next;
          held = held;
          gap_open = not (is_empty held);
          since_report = 0;
        },
        map delivered out,
      )
      else (
        record {
          epoch = epoch;
          epoch_set = true;
          next = next_seq;
          held = kept;
          gap_open = not (is_empty kept);
          since_report = 0;
        },
        [],
      )

  unfoldable pub reset : Bool → ℕ → ℕ → ℕ → Streams P → Streams P × List (Call P)
  unfolding reset_stream
  reset deliver symbol epoch next_seq streams =
      let (s, calls) = reset_stream deliver epoch next_seq (streams symbol) in
      (put_stream streams symbol s, calls)

  abbrev pub expected : Streams P → ℕ → ℕ
  expected streams symbol = (streams symbol).next
