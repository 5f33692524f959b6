-- ===== src/Pmd/Drained.antt =====
-- destroyAllInternal (pmd/pmdEduMgr.cpp), where every thread waits.
use edbc.Base.{
  ℕ, ◌+◌, ◌≡◌, refl, sym, ap, ◌∙◌, inl, inr, Bool, true, some, List, [], ◌∷◌, ◌==◌, Bool-cases,
  arith,
}
use edbc.Base.Outcome.{returns}
use edbc.Base.Outcome.Rc.{edb_ok}
use edbc.Base.Assoc.{Assoc, lookup, map_where-inv, lookup-map_where, has_value, count_where}
use edbc.Pmd.Edu.{EduCb, force}
use edbc.Pmd.Manager.{EduMgr}
use edbc.Pmd.Service.{
  EduPrivilege, user, all, concerns, edu_cnt, get_edu_cnt, force_edus, force_edus_body,
}
use edbc.Pmd.Invariant.{IsManaged, under_r-run, under_w-run}
use edbc.Pmd.Keeps.{force_edus-Settles}
use edbc.Pmd.Life.{settled}
use edbc.Pmd.Steps.{same_latch}
use edbc.Pmd.Proxy.{EntryPoint}
use edbc.Pmd.Shutdown.{Others, drain, destroy_all}
use edbc.Pmd.Drain.{thread_rounds, Present, Threads, Resting, Forced, rounds_done}

all_counted :
    (test : ℕ → Bool) (m : Assoc EduCb)
    → ((q : ℕ) → test q ≡ true)
    → count_where test m ≡ 0
    → m ≡ []
unfolding count_where
all_counted test [] each none_left = refl
all_counted test ((k, cb) ∷ m) each none_left =
    let some_left : 1 + count_where test m ≡ 0 = rw (each k) at none_left in ground arith

module _ (m : EduMgr) (h : IsManaged m) where
  counts : (prop : EduPrivilege) → get_edu_cnt prop m ≡ returns (edu_cnt prop m, m)
  unfolding get_edu_cnt
  counts prop =
      under_r-run m (λ n. (edu_cnt prop n, n)) h.free
      ∙ ap (λ n. returns (edu_cnt prop m, n)) (same_latch m h)

  forces : (prop : EduPrivilege) → force_edus prop m ≡ returns (force_edus_body prop m)
  unfolding force_edus force_edus_body
  forces prop =
      under_w-run m (force_edus_body prop) h.free
      ∙ ap (λ l. returns (edb_ok, record ((force_edus_body prop m).1) { latch = l })) (sym h.free)

  forced-IsManaged : (prop : EduPrivilege) → IsManaged ((force_edus_body prop m).1)
  unfolding force_edus_body
  forced-IsManaged prop = settled _ edb_ok _ (force_edus-Settles m h prop) (forces prop)

  -- No thread is left, and a loop ends at once.
  nobody_left : (prop : EduPrivilege) → m.run_queue ≡ [] → edu_cnt prop m ≡ 0
  unfolding count_where
  nobody_left prop empty = rw (empty, h.no_idle) refl

  drain_ends :
      (prop : EduPrivilege) (timer_cnt : ℕ) (rounds : List Others)
      → edu_cnt prop m ≡ 0
      → drain prop timer_cnt rounds m ≡ returns (rounds, m)
  unfolding drain
  drain_ends prop timer_cnt [] zero_left = rw (counts prop, zero_left) refl
  drain_ends prop timer_cnt (r ∷ rounds) zero_left = rw (counts prop, zero_left) refl

Present-kept :
    (es : List ℕ) (m n : EduMgr)
    → ((q : ℕ) (cb : EduCb)
        → lookup q m.run_queue ≡ some cb
        → (c : EduCb) × (lookup q n.run_queue ≡ some c))
    → Present es m
    → Present es n
Present-kept [] m n keeps p = tt
Present-kept (e ∷ es) m n keeps ((cb, at), fresh, p) =
    (keeps e cb at, fresh, Present-kept es m n keeps p)

module _ (m : EduMgr) (no_system : m.system_edu_id_map ≡ []) where
  abbrev calm : EduMgr
  calm = (force_edus_body user m).1

  concerned : (q : ℕ) → concerns user m q ≡ true
  unfolding has_value
  concerned q = rw no_system refl

  -- What a thread's control block was before all were forced.
  before :
      (q : ℕ) (c : EduCb)
      → lookup q calm.run_queue ≡ some c
      → (w : EduCb) × (lookup q m.run_queue ≡ some w) × (c ≡ force w)
  unfolding force_edus_body
  before q c e =
      let (w, found, same) = map_where-inv q (concerns user m) force m.run_queue c e in
      (w, found, rw (concerned q) at same)

  calm-Forced : Forced calm
  calm-Forced q c e = let (w, found, same) = before q c e in rw same refl

  calm-Resting : Resting m → Resting calm
  calm-Resting rest q c e =
      let (w, found, same) = before q c e in
      let (quiet, waits) = rest q w found in (rw same quiet, rw same waits)

  calm-Threads : (es : List ℕ) → Threads es m → Threads es calm
  unfolding force_edus_body
  calm-Threads es t = record {
    present =
        Present-kept es m calm
          (λ q cb at.
            (force cb, lookup-map_where q _ force m.run_queue ∙ rw (at, concerned q) refl))
          t.present;
    no_others =
        λ q no. lookup-map_where q (concerns user m) force m.run_queue ∙ rw (t.no_others q no) refl;
  }

module _ (exec : EntryPoint) (max_pool_size : ℕ) (eids : List ℕ) (rest : List Others) (m : EduMgr)
    (h : IsManaged m) (no_system : m.system_edu_id_map ≡ []) (threads : Threads eids m)
    (resting : Resting m) where
  abbrev first : Others
  first = thread_rounds exec max_pool_size eids

  -- The first loop takes a round at most.
  user_drained :
      (left : List Others) × (n : EduMgr) × (drain user 0 (first ∷ rest) m ≡ returns (left, n))
      × IsManaged n
      × (n.run_queue ≡ [])
  unfolding drain
  user_drained = elim (Bool-cases (edu_cnt user m == 0)) [
    | inl t ↦
        let none_left : edu_cnt user m ≡ 0 = ground arith in
        (
          first ∷ rest,
          m,
          drain_ends m h user 0 (first ∷ rest) none_left,
          h,
          all_counted (concerns user m) m.run_queue (concerned m no_system) (ground arith),
        )
    | inr t ↦
        let (n, ran, managed, empty) =
          rounds_done exec max_pool_size eids (calm m no_system) (forced-IsManaged m h user)
            (calm-Threads m no_system eids threads) (calm-Resting m no_system resting)
            (calm-Forced m no_system) in
        (
          rest,
          n,
          rw (counts m h user, t, forces m h user, ran)
              (drain_ends n managed user 1 rest (nobody_left n managed user empty)),
          managed,
          empty,
        )
  ]

abbrev closing : EduMgr → EduMgr
closing m = record m { is_destroyed = true; stop_service = true }

module _ (exec : EntryPoint) (max_pool_size : ℕ) (eids : List ℕ) (rest : List Others)
    (m : EduMgr) where
  -- destroyAllInternal ends, of a manager as it always is without system threads, whose threads
  -- all wait with no event and each have a round of pmdEntryPointProxy in which nothing comes
  -- while it first sleeps: it returns EDB_OK, the manager is as it always is, and no thread is
  -- left.
  pub destroy_all-ends :
      IsManaged m
      → m.system_edu_id_map ≡ []
      → Threads eids m
      → Resting m
      → (n : EduMgr) × (destroy_all (thread_rounds exec max_pool_size eids ∷ rest) m
          ≡ returns (edb_ok, n))
        × IsManaged n
        × (n.run_queue ≡ [])
  unfolding destroy_all
  destroy_all-ends h no_system threads resting =
      let closed : IsManaged (closing m) = record {
        free = h.free;
        no_idle = h.no_idle;
        live = h.live;
      } in
      let there : Threads eids (closing m) = record {
        present = Present-kept eids m (closing m) (λ q cb at. (cb, at)) threads.present;
        no_others = threads.no_others;
      } in
      let (left, n, ran, managed, empty) =
        user_drained exec max_pool_size eids rest (closing m) closed no_system there resting in
      let again = drain_ends n managed all 0 left (nobody_left n managed all empty) in
      (n, rw (ran, again) refl, managed, empty)
