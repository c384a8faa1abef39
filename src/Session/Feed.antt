-- ===== src/Session/Feed.antt =====
-- What of the trading state goes out, publishes of venue/include/flox-venue/engine/session.h and
-- emitStatus of venue/include/flox-venue/engine/session.inl.
use venue_core.Prelude.{
  append-nil, ℕ, zero, suc, ◌≡◌, refl, sym, ap, ◌∙◌, ◌≢◌, Bool, true, false, Option, none, some,
  List, [], ◌∷◌, subst, ◌++◌, ==_iff, ◌&&◌, if◌then◌else◌, if-split, arith,
}
use venue_core.Prelude.Int.{ℤ, eqb_ℤ, eqb_ℤ→eq}
use venue_core.Types.{TradingStatus, TradingStatusReason}
use venue_core.Session.{Session, status_code, same_status, publishes}
use venue_core.Session.Venue.{Signal, status_changed, pull_book, uncross, Venue, send, emit_status}

of_code : ℕ → TradingStatus
of_code zero = TradingStatus.trading
of_code (suc zero) = TradingStatus.halted
of_code (suc (suc zero)) = TradingStatus.luld_pause
of_code (suc (suc (suc zero))) = TradingStatus.auction_pre_open
of_code (suc (suc (suc (suc zero)))) = TradingStatus.auction_uncross
of_code (suc (suc (suc (suc (suc zero))))) = TradingStatus.closed
of_code (suc (suc (suc (suc (suc (suc n)))))) = TradingStatus.delisted

of_code-status_code : (s : TradingStatus) → of_code (status_code s) ≡ s
unfolding of_code
of_code-status_code TradingStatus.trading = refl
of_code-status_code TradingStatus.halted = refl
of_code-status_code TradingStatus.luld_pause = refl
of_code-status_code TradingStatus.auction_pre_open = refl
of_code-status_code TradingStatus.auction_uncross = refl
of_code-status_code TradingStatus.closed = refl
of_code-status_code TradingStatus.delisted = refl

pub same_status→eq : (a b : TradingStatus) → same_status a b ≡ true → a ≡ b
same_status→eq a b h =
    sym (of_code-status_code a)
    ∙ ap of_code ((==_iff (status_code a) (status_code b)).0 h)
    ∙ of_code-status_code b

-- The session with what went out last.
abbrev pub noted : TradingStatus → ℤ → Session → Session
noted st until s = record s { published = true; last_status = st; last_status_until = until }

pub noted_again :
    (st : TradingStatus) (until : ℤ) (s : Session)
    → s.published && same_status st s.last_status && eqb_ℤ until s.last_status_until ≡ true
    → s ≡ noted st until s
noted_again st until s e =
    let e1 : s.published ≡ true = ground arith in
    let e2 : st ≡ s.last_status = same_status→eq st s.last_status (ground arith) in
    let e3 : until ≡ s.last_status_until = eqb_ℤ→eq until s.last_status_until (ground arith) in
    rw (e2, e3, sym e1) refl

-- The statuses among the signals, each with its deadline.
unfoldable pub statuses : List Signal → List (TradingStatus × ℤ)
statuses [] = []
statuses (status_changed m ∷ rest) = (m.status, m.until_ns) ∷ statuses rest
statuses (pull_book reason ∷ rest) = statuses rest
statuses (uncross ∷ rest) = statuses rest

-- What a subscriber was told last.
unfoldable pub last_or :
    Option (TradingStatus × ℤ) → List (TradingStatus × ℤ) → Option (TradingStatus × ℤ)
last_or told [] = told
last_or told (x ∷ rest) = last_or (some x) rest

-- No status repeats the one before it.
unfoldable pub Changes : Option (TradingStatus × ℤ) → List (TradingStatus × ℤ) → Type 0
Changes told [] = Unit
Changes told (x ∷ rest) = (told ≢ some x) × Changes (some x) rest

unfoldable pub memo : Session → Option (TradingStatus × ℤ)
memo s = if s.published then some (s.last_status, s.last_status_until) else none

-- The signals are changes after what was told, and the session notes the last of them.
unfoldable pub Carries : Option (TradingStatus × ℤ) → Session × List Signal → Type 0
unfolding Changes memo statuses last_or
Carries told (s', signals) =
    Changes told (statuses signals) × (memo s' ≡ last_or told (statuses signals))

news_new :
    (st : TradingStatus) (until : ℤ) (s : Session)
    → s.published && same_status st s.last_status && eqb_ℤ until s.last_status_until ≡ false
    → memo s ≢ some (st, until)
unfolding memo
news_new st until s e told = ground arith

pub send-Carries :
    (st : TradingStatus) (reason : TradingStatusReason) (until : ℤ) (v : Venue)
    → ((emit_status st reason until v).0 ≡ record v { session = noted st until v.session })
      × Carries
          (memo v.session)
          ((emit_status st reason until v).0.session, (emit_status st reason until v).1)
unfolding emit_status publishes Carries memo statuses Changes last_or
send-Carries st reason until v =
    if-split {A = Bool × Session}
      (λ r.
        let (v', signals) =
          send r (record { symbol = v.symbol; status = st; reason = reason; until_ns = until }) v in
        (v' ≡ record v { session = noted st until v.session })
        × Carries (memo v.session) (v'.session, signals))
      (v.session.published
        && same_status st v.session.last_status
        && eqb_ℤ until v.session.last_status_until)
      (λ e. (ap (λ s. record v { session = s }) (noted_again st until v.session e), (tt, refl)))
      (λ e. (refl, ((news_new st until v.session e, tt), refl)))

statuses-append : (xs ys : List Signal) → statuses (xs ++ ys) ≡ statuses xs ++ statuses ys
unfolding statuses
statuses-append [] ys = refl
statuses-append (status_changed m ∷ xs) ys =
    ap (λ rest. (m.status, m.until_ns) ∷ rest) (statuses-append xs ys)
statuses-append (pull_book reason ∷ xs) ys = statuses-append xs ys
statuses-append (uncross ∷ xs) ys = statuses-append xs ys

last_or-append :
    (told : Option (TradingStatus × ℤ)) (xs ys : List (TradingStatus × ℤ))
    → last_or told (xs ++ ys) ≡ last_or (last_or told xs) ys
unfolding last_or
last_or-append told [] ys = refl
last_or-append told (x ∷ xs) ys = last_or-append (some x) xs ys

Changes-append :
    (told : Option (TradingStatus × ℤ)) (xs ys : List (TradingStatus × ℤ))
    → Changes told xs
    → Changes (last_or told xs) ys
    → Changes told (xs ++ ys)
unfolding Changes last_or
Changes-append told [] ys hx hy = hy
Changes-append told (x ∷ xs) ys hx hy = (hx.0, Changes-append (some x) xs ys hx.1 hy)

pub Carries-append :
    (told : Option (TradingStatus × ℤ)) (s1 s2 : Session) (xs ys : List Signal)
    → Carries told (s1, xs)
    → Carries (memo s1) (s2, ys)
    → Carries told (s2, xs ++ ys)
unfolding Carries
Carries-append told s1 s2 xs ys hx hy =
    rw (statuses-append xs ys, last_or-append)
      (
        Changes-append told (statuses xs) (statuses ys) hx.0
            (subst (λ m. Changes m (statuses ys)) (hx.1) hy.0),
        hy.1 ∙ ap (λ m. last_or m (statuses ys)) hx.1,
      )

-- Signals of the other kinds carry no status.
pub Carries-quiet :
    (told : Option (TradingStatus × ℤ)) (s : Session) (xs ys : List Signal)
    → statuses ys ≡ []
    → Carries told (s, xs)
    → Carries told (s, xs ++ ys)
unfolding Carries
Carries-quiet told s xs ys quiet h =
    let same : statuses (xs ++ ys) ≡ statuses xs =
      statuses-append xs ys ∙ ap (λ z. statuses xs ++ z) quiet ∙ append-nil (statuses xs) in
    rw same h
