-- ===== src/Router/Dialers/Pool.antt =====
-- internal/router/api.go: what a sequence of calls does to the dialers.
use awg_proxy_go.Prelude.{
  ◌≡◌, ◌≢◌, refl, ap, ◌∙◌, sym, subst, Bool, true, false, String, List, [], ◌∷◌, ◌++◌, some,
  Option-cases, inl, inr, some_inj, if◌then◌else◌,
}
use awg_proxy_go.Prelude.Eq.{◌==◌, string_eq, equals-cases, ne-equals}
use awg_proxy_go.Prelude.Text.{codes}
use awg_proxy_go.Prelude.Dict.{Dict, lookup, insert, lookup-insert, lookup-insert_self}
use awg_proxy_go.Prelude.Results.{Result, ok, err}
use awg_proxy_go.Router.Binapi.Conn.{Bytes, Words, kv_words}
use awg_proxy_go.Router.Binapi.Dialer.{
  Net, CallError, Conn, Dialer, Outcome, ensure, call, added, print, add, set, remove,
}
use awg_proxy_go.Router.Binapi.Dialer.Lifetime.{IsSettled, call-IsSettled}
use awg_proxy_go.Router.Binapi.Dialer.Credentials.{SameLogin, call-SameLogin}
use awg_proxy_go.Router.Settings.{RouterConfig}
use awg_proxy_go.Router.Dialers.{
  DialerKey, key_eq, dialer_key, Dialers, ApiError, no_credentials, new_dialer, dialer_of, kept,
  call_print, call_add, call_set, call_remove,
}

pub data Command : Type 0 where
  print_at : String → List Bytes → Command
  add_at : String → Words → Command
  set_at : String → Bytes → Words → Command
  remove_at : String → Bytes → Command

module _ {C : Type 0} where
  -- Every dialer logs in with the credentials that it stands under.
  abbrev pub IsPool : Dict DialerKey (Dialer C) → Type 0
  IsPool ds =
      (k : DialerKey) (d : Dialer C)
      → lookup k ds ≡ some d
      → (d.user ≡ codes k.user) × (d.password ≡ codes k.pass)

  abbrev pub IsConnected : DialerKey → Dict DialerKey (Dialer C) → Type 0
  IsConnected k ds = (d : Dialer C) × (lookup k ds ≡ some d) × ((c : Conn C) × (d.conn ≡ some c))

  dialer_of-SameLogin :
      (c : RouterConfig) (ds : Dict DialerKey (Dialer C))
      → IsPool ds
      → SameLogin (new_dialer c) (dialer_of c ds)
  unfolding dialer_of
  dialer_of-SameLogin c ds h = elim (Option-cases (lookup (dialer_key c) ds)) [
    | inl e ↦ rw (dialer_of, e) (refl, refl)
    | inr (d, e) ↦ rw (dialer_of, e) (h (dialer_key c) d e)
  ]

  insert-other :
      (j k : DialerKey) (d : Dialer C) (ds : Dict DialerKey (Dialer C))
      → k ≢ j
      → lookup k (insert j d ds) ≡ lookup k ds
  insert-other j k d ds other = rw (lookup-insert, ne-equals j k (λ e. other (sym e))) refl

  insert-IsPool :
      (c : RouterConfig) (d : Dialer C) (ds : Dict DialerKey (Dialer C))
      → IsPool ds
      → SameLogin (new_dialer c) d
      → IsPool (insert (dialer_key c) d ds)
  insert-IsPool c d ds h same k x found = elim (equals-cases (dialer_key c) k) [
    | inl at ↦
        let this : d ≡ x = some_inj (
          sym (lookup-insert_self (dialer_key c) d ds)
          ∙ subst (λ j. lookup j (insert (dialer_key c) d ds) ≡ some x) (sym at) found) in
        subst (λ j. (x.user ≡ codes j.user) × (x.password ≡ codes j.pass)) at
          (subst (λ y. SameLogin (new_dialer c) y) this same)
    | inr other ↦ h k x (sym (insert-other (dialer_key c) k d ds (λ e. other (sym e))) ∙ found)
  ]

module _ {W C : Type 0} where
  abbrev pub succeeded : {A : Type 0} → Dialers W C × Result ApiError A → Dialers W C × Bool
  succeeded (s, ok a) = (s, true)
  succeeded (s, err e) = (s, false)

  -- The dialers of other credentials are as they were, and behind a success the one of the
  -- configuration holds an open connection.
  abbrev pub IsCalled : Dialers W C → RouterConfig → Dialers W C × Bool → Type 0
  IsCalled s c (s', done) =
      IsPool s'.dialers
      × ((k : DialerKey) → k ≢ dialer_key c → lookup k s'.dialers ≡ lookup k s.dialers)
      × (done ≡ true → IsConnected (dialer_key c) s'.dialers)

  abbrev IsOpened : {A : Type 0} → W × Dialer C × Result CallError A → Type 0
  IsOpened (w, d, ok a) = (c : Conn C) × (d.conn ≡ some c)
  IsOpened (w, d, err e) = Unit

  untouched : (s : Dialers W C) (c : RouterConfig) → IsPool s.dialers → IsCalled s c (s, false)
  untouched s c h = (h, (λ k other. refl), (λ e. cc))

  login_kept :
      (s : Dialers W C) (c : RouterConfig) (d : Dialer C)
      → IsPool s.dialers
      → SameLogin (dialer_of c s.dialers) d
      → SameLogin (new_dialer c) d
  login_kept s c d h same =
      let first = dialer_of-SameLogin c s.dialers h in (same.0 ∙ first.0, same.1 ∙ first.1)

  kept-IsCalled :
      {A : Type 0} (s : Dialers W C) (c : RouterConfig) (o : W × Dialer C × Result CallError A)
      → IsPool s.dialers
      → SameLogin (dialer_of c s.dialers) o.1
      → IsOpened o
      → IsCalled s c (succeeded (kept s (dialer_key c) o))
  unfolding kept
  kept-IsCalled s c (w, d, ok a) h same opened = (
    insert-IsPool c d s.dialers h (login_kept s c d h same),
    (λ k other. insert-other (dialer_key c) k d s.dialers other),
    (λ e. (d, lookup-insert_self (dialer_key c) d s.dialers, opened)),
  )
  kept-IsCalled s c (w, d, err e) h same opened = (
    insert-IsPool c d s.dialers h (login_kept s c d h same),
    (λ k other. insert-other (dialer_key c) k d s.dialers other),
    (λ e. cc),
  )

module _ {W C : Type 0} (net : DialerKey → Net W C) where
  abbrev pub exec : Dialers W C → RouterConfig → Command → Dialers W C × Bool
  exec s c (print_at path args) = succeeded (call_print net s c path args)
  exec s c (add_at path kv) = succeeded (call_add net s c path kv)
  exec s c (set_at path id kv) = succeeded (call_set net s c path id kv)
  exec s c (remove_at path id) = succeeded (call_remove net s c path id)

  outcome-IsOpened : (n : Net W C) (o : Outcome n) → IsSettled n o → IsOpened o
  outcome-IsOpened n (w, d, ok rows) h = h
  outcome-IsOpened n (w, d, err e) h = tt

  added-IsOpened : (n : Net W C) (o : Outcome n) → IsSettled n o → IsOpened (added n o)
  unfolding added
  added-IsOpened n (w, d, err e) h = tt
  added-IsOpened n (w, d, ok []) h = tt
  added-IsOpened n (w, d, ok (r ∷ rows)) h = h

  added-dialer : (n : Net W C) (o : Outcome n) → (added n o).1 ≡ o.1
  unfolding added
  added-dialer n (w, d, err e) = refl
  added-dialer n (w, d, ok []) = refl
  added-dialer n (w, d, ok (r ∷ rows)) = refl

  call-IsCalled :
      (s : Dialers W C) (c : RouterConfig) (cmd : Bytes) (args : List Bytes)
      → IsPool s.dialers
      → IsCalled s c (
          succeeded (
            kept s
              (dialer_key c)
              (call (net (dialer_key c)) s.world (dialer_of c s.dialers) cmd args)))
  call-IsCalled s c cmd args h =
      let n = net (dialer_key c) in
      let d = dialer_of c s.dialers in
      kept-IsCalled s c (call n s.world d cmd args) h (call-SameLogin n d s.world cmd args)
        (outcome-IsOpened n (call n s.world d cmd args) (call-IsSettled n s.world d cmd args))

  add-IsCalled :
      (s : Dialers W C) (c : RouterConfig) (path : String) (kv : Words)
      → IsPool s.dialers
      → IsCalled s c (
          succeeded (
            kept s
              (dialer_key c)
              (add (net (dialer_key c)) s.world (dialer_of c s.dialers) (codes path) kv)))
  unfolding add
  add-IsCalled s c path kv h =
      let n = net (dialer_key c) in
      let d = dialer_of c s.dialers in
      let cmd = codes path ++ codes "/add" in
      let o = call n s.world d cmd (kv_words kv) in
      kept-IsCalled s c (added n o) h
        (subst (SameLogin d) (sym (added-dialer n o))
          (call-SameLogin n d s.world cmd (kv_words kv)))
        (added-IsOpened n o (call-IsSettled n s.world d cmd (kv_words kv)))

  if-IsCalled :
      {A : Type 0} (no : Bool) (s : Dialers W C) (c : RouterConfig)
      (r : Dialers W C × Result ApiError A)
      → IsPool s.dialers
      → IsCalled s c (succeeded r)
      → IsCalled s c (succeeded (if no then (s, err no_credentials) else r))
  if-IsCalled true s c r h called = untouched s c h
  if-IsCalled false s c r h called = called

  exec-IsCalled :
      (s : Dialers W C) (c : RouterConfig) (x : Command)
      → IsPool s.dialers
      → IsCalled s c (exec s c x)
  unfolding call_print call_add call_set call_remove print set remove
  exec-IsCalled s c (print_at path args) h =
      if-IsCalled (c.address == "") s c _ h
        (call-IsCalled s c (codes path ++ codes "/print") args h)
  exec-IsCalled s c (add_at path kv) h =
      if-IsCalled (c.address == "") s c _ h (add-IsCalled s c path kv h)
  exec-IsCalled s c (set_at path id kv) h =
      if-IsCalled (c.address == "") s c _ h
        (call-IsCalled s c (codes path ++ codes "/set") ((codes "=.id=" ++ id) ∷ kv_words kv) h)
  exec-IsCalled s c (remove_at path id) h =
      if-IsCalled (c.address == "") s c _ h
        (call-IsCalled s c (codes path ++ codes "/remove") ((codes "=.id=" ++ id) ∷ []) h)

  abbrev pub exec_all : Dialers W C → List (RouterConfig × Command) → Dialers W C
  exec_all s [] = s
  exec_all s ((c, x) ∷ calls) = exec_all (exec s c x).0 calls

  exec_all-IsPool :
      (s : Dialers W C) (calls : List (RouterConfig × Command))
      → IsPool s.dialers
      → IsPool (exec_all s calls).dialers
  exec_all-IsPool s [] h = h
  exec_all-IsPool s ((c, x) ∷ calls) h =
      exec_all-IsPool (exec s c x).0 calls (exec-IsCalled s c x h).0

  -- Behind a success, a call with the same credentials gets the open connection, without a dial.
  abbrev pub IsReused : RouterConfig → Dialers W C × Bool → Type 0
  IsReused c (s, good) =
      good ≡ true
      → (conn : Conn C) × ((w : W)
          → ensure (net (dialer_key c)) w (dialer_of c s.dialers) ≡ (w, ok conn))

  ensure-open :
      (n : Net W C) (w : W) (d : Dialer C) (conn : Conn C)
      → d.conn ≡ some conn
      → ensure n w d ≡ (w, ok conn)
  unfolding ensure
  ensure-open n w d conn e = rw (ensure, e) refl

  IsCalled-IsReused :
      (s : Dialers W C) (c : RouterConfig) (o : Dialers W C × Bool) → IsCalled s c o → IsReused c o
  unfolding dialer_of
  IsCalled-IsReused s c (s', success) called good =
      let (d, found, (conn, opened)) = called.2 good in
      let same : dialer_of c s'.dialers ≡ d = rw (dialer_of, found) refl in
      (
        conn,
        (λ w.
            ap (ensure (net (dialer_key c)) w) same
            ∙ ensure-open (net (dialer_key c)) w d conn opened),
      )

  -- Whatever calls came before, under whatever configurations, since there were no dialers: each
  -- dialer logs in with the credentials that it stands under, a further call leaves the dialers of
  -- other credentials alone, and if it succeeds, the dialer of its configuration has an open
  -- connection, which the next call with the same credentials gets without a dial or a login.
  pub exec_all-IsCalled :
      (w : W) (calls : List (RouterConfig × Command)) (c : RouterConfig) (x : Command)
      → IsCalled
          (exec_all (record { world = w; dialers = [] }) calls)
          c
          (exec (exec_all (record { world = w; dialers = [] }) calls) c x)
        × IsReused c (exec (exec_all (record { world = w; dialers = [] }) calls) c x)
  unfolding lookup
  exec_all-IsCalled w calls c x =
      let s : Dialers W C = record { world = w; dialers = [] } in
      let called =
        exec-IsCalled (exec_all s calls) c x
          (exec_all-IsPool s calls (λ k d none_there. cc none_there)) in
      (called, IsCalled-IsReused (exec_all s calls) c (exec (exec_all s calls) c x) called)
