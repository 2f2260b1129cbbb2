-- ===== src/Otel/Testkit/Laws.antt =====
-- What the collector keeps of the requests, and how it stops (otel/testkit/).
use gopack.Prelude.{
  ℕ, zero, suc, ◌+◌, ◌≡◌, refl, sym, ap, ◌∙◌, inl, inr, true, false, String, List, [], ◌∷◌, ◌++◌,
  append-nil, append_assoc, Option, none, some, Error, arith, ltb, length, get_elem?, drop,
  Bool-cases,
}
use gopack.Otel.Testkit.{
  set_stop_fn, set_end_point, set_listener, Request, MetricService, Listener, conn, closed_conn,
  returns, panics, Collector, new_listener, accept, wait_for_conn, add_metrics, export, exports,
  new_test_collector, stop, stops, err_already_stopped, started, start_otel_collector_with_config,
  close_channel,
}

drop-lt :
    {A : Type 0} (xs : List A) (k : ℕ)
    → ltb k (length xs) ≡ true
    → (x : A) × (get_elem? xs k ≡ some x) × (drop k xs ≡ x ∷ drop (suc k) xs)
drop-lt [] k h = ground arith
drop-lt (x ∷ xs) zero h = (x, refl, refl)
drop-lt (x ∷ xs) (suc k) h = drop-lt xs k (ground arith)

drop-ge : {A : Type 0} (xs : List A) (k : ℕ) → ltb k (length xs) ≡ false → drop k xs ≡ []
drop-ge [] zero h = refl
drop-ge [] (suc k) h = refl
drop-ge (x ∷ xs) zero h = ground arith
drop-ge (x ∷ xs) (suc k) h = drop-ge xs k (ground arith)

module _ {M : Type 0} where
  -- the metrics of the first scope of each resource
  unfoldable pub first_scopes : Request M → List M
  first_scopes [] = []
  first_scopes ([] ∷ rms) = first_scopes rms
  first_scopes ((scope ∷ _) ∷ rms) = scope ++ first_scopes rms

  add_metrics-first_scopes :
      (exp : Request M) (metrics : List M) → add_metrics exp metrics ≡ metrics ++ first_scopes exp
  unfolding add_metrics first_scopes
  add_metrics-first_scopes [] metrics = sym (append-nil metrics)
  add_metrics-first_scopes ([] ∷ rms) metrics = add_metrics-first_scopes rms metrics
  add_metrics-first_scopes ((scope ∷ scopes) ∷ rms) metrics =
      add_metrics-first_scopes rms (metrics ++ scope)
      ∙ append_assoc metrics scope (first_scopes rms)

abbrev pub all_stopped : ℕ → List (Option Error)
all_stopped zero = []
all_stopped (suc n) = some err_already_stopped ∷ all_stopped n

module _ {M D : Type 0} where
  -- The answers to the requests, and the metrics that they leave, while `errs` are still to be given.
  pub answers : List (Option Error) → List (Option D × Request M) → List (Option Error)
  answers errs [] = []
  answers [] (r ∷ rs) = none ∷ answers [] rs
  answers (e ∷ errs) (r ∷ rs) = e ∷ answers errs rs

  unfoldable pub kept : List (Option Error) → List (Option D × Request M) → List M
  kept errs [] = []
  kept [] ((incoming, exp) ∷ rs) = first_scopes exp ++ kept [] rs
  kept (e ∷ errs) (r ∷ rs) = kept errs rs

  export-error :
      (incoming : Option D) (exp : Request M) (s : MetricService M D) (e : Option Error)
      → ltb s.requests (length s.errors) ≡ true
      → get_elem? s.errors s.requests ≡ some e
      → export incoming exp s ≡ (record s { requests = s.requests + 1 }, e)
  unfolding export
  export-error incoming exp s e h k = rw (h, k) refl

  export-kept :
      (incoming : Option D) (exp : Request M) (s : MetricService M D)
      → ltb s.requests (length s.errors) ≡ false
      → export incoming exp s ≡ (
        record s {
          requests = s.requests + 1;
          headers = incoming;
          storage = s.storage ++ first_scopes exp;
        },
        none,
      )
  unfolding export
  export-kept incoming exp s h = rw (h, add_metrics-first_scopes exp s.storage) refl

  kept_head :
      (o : Option D) (exp : Request M) (rs : List (Option D × Request M))
      → kept [] ((o, exp) ∷ rs) ≡ first_scopes exp ++ kept [] rs
  unfolding kept
  kept_head o exp rs = refl

  exports-answers :
      (rs : List (Option D × Request M)) (s : MetricService M D)
      → ((exports rs s).1 ≡ answers (drop s.requests s.errors) rs)
        × ((exports rs s).0.storage ≡ s.storage ++ kept (drop s.requests s.errors) rs)
  unfolding exports answers kept
  exports-answers [] s = ground (arith, append-nil s.storage)
  exports-answers ((incoming, exp) ∷ rs) s = elim (Bool-cases (ltb s.requests (length s.errors))) [
    | inl early ↦
        let next : suc s.requests ≡ s.requests + 1 = omega arith in
        let (e, here, rest) = drop-lt s.errors s.requests early in
        let (ans, st) = exports-answers rs (record s { requests = s.requests + 1 }) in
        rw (export-error incoming exp s e early here, rest ∙ ap (λ n. e ∷ drop n s.errors) next)
          (ap (λ l. e ∷ l) ans, st)
    | inr late ↦
        let next = record s {
          requests = s.requests + 1;
          headers = incoming;
          storage = s.storage ++ first_scopes exp;
        } in
        let (ans, st) = exports-answers rs next in
        let none_left = drop-ge s.errors s.requests late in
        let none_next = drop-ge s.errors (s.requests + 1) (ground arith) in
        rw (export-kept incoming exp s late, none_left)
          (
            ap (λ l. none ∷ l) (ans ∙ rw none_next refl),
            st ∙ rw none_next (append_assoc s.storage (first_scopes exp) (kept [] rs)),
          )
  ]

  -- A new collector answers the first requests with the configured errors, one each and in their
  -- order, and stores nothing of them. It answers every request behind them with no error, and its
  -- metrics are those of the first scope of each resource of these requests, in order.
  pub exports-new_test_collector :
      (errs : List (Option Error)) (rs : List (Option D × Request M))
      → let (after, got) = exports rs (new_test_collector {M = M} {D = D} errs).metric_svc in
        (got ≡ answers errs rs) × (after.storage ≡ kept errs rs)
  unfolding new_test_collector
  exports-new_test_collector errs rs =
      exports-answers rs (new_test_collector {M = M} {D = D} errs).metric_svc

  stops_again : (n : ℕ) (c : Collector M D) → c.stop_once ≡ true → stops n c ≡ (c, all_stopped n)
  unfolding stops stop
  stops_again zero c h = refl
  stops_again (suc n) c h = ground (arith, stops_again n c)

  -- However often a started collector is stopped, the first call stops its server and returns no
  -- error, and the others return that it is stopped, and stop nothing.
  pub stops-start_otel_collector_with_config :
      (n : ℕ) (addr : String) (errs : List (Option Error))
      → (c : Collector M D) × (start_otel_collector_with_config none addr errs ≡ started c)
        × ((stops (suc n) c).1 ≡ none ∷ all_stopped n)
        × ((stops (suc n) c).0.stop_calls ≡ 1)
  unfolding start_otel_collector_with_config set_stop_fn set_end_point set_listener
      new_test_collector stops stop
  stops-start_otel_collector_with_config n addr errs = (
    _,
    refl,
    ap (λ r. none ∷ r.1) (stops_again n _ refl),
    ap (λ r. r.0.stop_calls) (stops_again n _ refl),
  )

-- a listener behind `n` connections
unfoldable pub accepts : ℕ → Listener → Option Listener
unfolding accept
accepts zero l = some l
accepts (suc n) l = elim (accept conn l) [ panics ↦ none | returns m r ↦ accepts n m ]

accepts_signalled :
    (n : ℕ) (l : Listener) → l.closed ≡ false → l.signal ≡ true → accepts n l ≡ some l
unfolding accepts accept
accepts_signalled zero l h k = refl
accepts_signalled (suc n) l h k = ground (arith, accepts_signalled n l)

-- However many connections a new listener accepts before, a wait for one returns once, and leaves
-- the listener as new, so that the next wait waits.
pub accepts-wait_for_conn :
    (n : ℕ) (m : Listener)
    → accepts (suc n) new_listener ≡ some m
    → (wait_for_conn m ≡ some new_listener) × (wait_for_conn new_listener ≡ none)
unfolding accepts accept new_listener wait_for_conn
accepts-wait_for_conn n m h =
    ground
      (arith, accepts_signalled n (record { close_once = false; signal = true; closed = false }))

-- Once the wrapped listener is closed, a wait returns at once, as often as it is called, and closed
-- connections close the channel no second time; but a connection that is accepted nevertheless
-- panics.
pub accept-closed :
    (l m : Listener)
    → (l.closed ≡ l.close_once)
    → accept closed_conn l ≡ returns m closed_conn
    → (n : Listener) × (wait_for_conn m ≡ some n)
      × (wait_for_conn n ≡ some n)
      × (accept closed_conn n ≡ returns n closed_conn)
      × (accept conn n ≡ panics)
unfolding accept close_channel wait_for_conn
accept-closed l m same h =
    (record m { signal = false }, ground arith, ground arith, ground arith, ground arith)
