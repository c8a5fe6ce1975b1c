-- ===== src/Engine/Posts.antt =====
-- The parts of `src/management/engine.py`, measured by the POSTs that they send.
use pegaprox_plugin_opnsense.Prelude.{
  ℕ, zero, suc, ◌+◌, String, Bool, ◌&&◌, ◌||◌, not, Option, none, some, List, [], ◌∷◌, length,
  arith, ◌==◌, any_of, leb, ltb, ℤ,
}
use pegaprox_plugin_opnsense.Value.{Value, str, Fields, end}
use pegaprox_plugin_opnsense.Exec.{
  Exn, is_opnsense, is_os_error, is_management, is_value_or_type, management, modify, ◌>>=◌,
}
use pegaprox_plugin_opnsense.Exec.Costs.{
  Costs, Costs-pure, Costs-raise, Costs-gets, Costs-if, Costs-le, Costs-bind, Costs-catch,
  Costs-attempt,
}
use pegaprox_plugin_opnsense.World.{Env, Trace, M}
use pegaprox_plugin_opnsense.Client.{Client}
use pegaprox_plugin_opnsense.Client.Posts.{posts, get-Costs, post-Costs}
use pegaprox_plugin_opnsense.Verified.Posts.{still, then_still, now-Costs, append-Costs}
use pegaprox_plugin_opnsense.Engine.{Action, Spec}
use pegaprox_plugin_opnsense.Engine.Items.{Listing}
use pegaprox_plugin_opnsense.Engine.Service.{
  singleton_uuid, call_get, call_post, raw, detail_of, detail, one_row, searched, list_objects,
  audit,
}
use pegaprox_plugin_opnsense.Engine.Scan.{Service, has_uuid, judge_page, scan}
use pegaprox_plugin_opnsense.Engine.Change.{
  Run, Op, on_wire, at_stage, apply_all, read_back, check_peer, note, submit, activate, perform,
  handle, first_run, attempt_change,
}

module _ (env : Env) (truncated : String → ℤ) (c : Client) (spec : Spec) where
  pub call_get-Costs :
      (path : String) (params : Fields) → Costs posts 0 (call_get env truncated c spec path params)
  unfolding call_get
  call_get-Costs path params =
      Costs-catch is_opnsense _ _ 0 0 (get-Costs env c path params) (λ e. Costs-raise _)

  pub call_post-Costs :
      (path : String) (payload : Value)
      → Costs posts 1 (call_post env truncated c spec path payload)
  unfolding call_post
  call_post-Costs path payload =
      Costs-catch is_opnsense _ _ 1 0 (post-Costs env c path payload) (λ e. Costs-raise _)

  pub raw-Costs : (uuid : String) → Costs posts 0 (raw env truncated c spec uuid)
  unfolding raw
  raw-Costs uuid =
      then_still _ _ (still _)
        (λ path. then_still _ _ (call_get-Costs path end) (λ response. still _))

  detail_of-Costs : (uuid : String) → Costs posts 0 (detail_of env truncated c spec uuid)
  unfolding detail_of
  detail_of-Costs uuid =
      then_still _ _ (raw-Costs uuid) (λ object. then_still _ _ (still _) (λ item. Costs-pure _))

  detail-Costs : (v : Option Value) → Costs posts 0 (detail env truncated c spec v)
  unfolding detail
  detail-Costs none = detail_of-Costs _
  detail-Costs (some v) =
      then_still _ _ (Costs-catch is_value_or_type _ _ 0 0 (still _) (λ e. Costs-raise _)) (λ uuid.
        Costs-if (spec.singleton && not (uuid == _)) _ _ 0 (still _) (detail_of-Costs uuid))

  one_row-Costs :
      (page row_count : Value) → Costs posts 0 (one_row env truncated c spec page row_count)
  unfolding one_row
  one_row-Costs page row_count =
      then_still _ _ (detail-Costs (some (str singleton_uuid))) (λ found. Costs-pure _)

  searched-Costs :
      (page row_count search : Value)
      → Costs posts 0 (searched env truncated c spec page row_count search)
  unfolding searched
  searched-Costs page row_count search =
      then_still _ _ (still _) (λ path. then_still _ _ (call_get-Costs path _) (λ out. still _))

  pub list_objects-Costs :
      (page row_count search : Value)
      → Costs posts 0 (list_objects env truncated c spec page row_count search)
  unfolding list_objects
  list_objects-Costs page row_count search = then_still _ _ (still _) (λ _.
      Costs-if spec.singleton _ _ 0 (one_row-Costs page row_count)
        (searched-Costs page row_count search))

  pub audit-Costs :
      (has_log : Bool) (actor action uuid result : String) (payload : Value) (started : Trace)
      → Costs posts 0 (audit env truncated c spec has_log actor action uuid result payload started)
  unfolding audit
  audit-Costs has_log actor action uuid result payload started =
      then_still _ _ (Costs-gets _) (λ elapsed.
        then_still _ _ (now-Costs env _ _ _ _ _ _ _ _) (λ entry.
          Costs-if has_log _ _ 0
            (Costs-catch is_os_error _ _ 0 0 (append-Costs env entry) (λ e. Costs-raise _))
            (Costs-raise _)))

  pub scan-Costs :
      (there incomplete exhausted : Exn) (uuid : String) (page observed left : ℕ)
      → Costs posts 0 (scan env truncated spec c there incomplete exhausted uuid page observed left)
  unfolding scan judge_page
  scan-Costs there incomplete exhausted uuid page observed zero = Costs-raise exhausted
  scan-Costs there incomplete exhausted uuid page observed (suc left) =
      then_still _ _ (list_objects-Costs _ _ _) (λ listing.
        judged listing _
          (λ count. scan-Costs there incomplete exhausted uuid (page + 1) count left))
    where
      judged :
          (listing : Listing) (rest : ℕ → M (Unit {0}))
          → ((count : ℕ) → Costs posts 0 (rest count))
          → Costs posts 0
              (judge_page env truncated spec there incomplete uuid page observed rest listing)
      judged listing rest h =
          Costs-if (any_of (has_uuid uuid) listing.rows) _ _ 0 (Costs-raise there) (
            Costs-if (leb listing.total (observed + length listing.rows)) _ _ 0 (Costs-pure tt) (
              Costs-if (ltb (length listing.rows) 200 || leb 1000 page) _ _ 0
                (Costs-raise incomplete) (h _)))

abbrev spent : Run → ℕ
spent s = posts s.trace

wire : {A : Type 0} (n : ℕ) (m : M A) → Costs posts n m → Costs spent n (on_wire m)
unfolding on_wire
wire n m c = record { above = λ s. c.above s.trace; below = λ s. c.below s.trace }

free :
    {A B : Type 0} (k : ℕ) (m : Op A) (f : A → Op B)
    → Costs spent 0 m
    → ((a : A) → Costs spent k (f a))
    → Costs spent k (m >>= f)
free k m f hm hf = Costs-le (0 + k) k (omega arith) (Costs-bind m f 0 k hm hf)

paid :
    {A B : Type 0} (k : ℕ) (m : Op A) (f : A → Op B)
    → Costs spent k m
    → ((a : A) → Costs spent 0 (f a))
    → Costs spent k (m >>= f)
paid k m f hm hf = Costs-le (k + 0) k (omega arith) (Costs-bind m f k 0 hm hf)

module _ (env : Env) (truncated : String → ℤ) (service : Service) (spec : Spec) where
  pub read_back-Costs :
      (action : Action) (values : Fields) (expected : Option Value) (uuid : String)
      → Costs posts 0 (read_back env truncated service spec action values expected uuid)
  unfolding read_back
  read_back-Costs action values none uuid =
      then_still _ _ (scan-Costs env truncated service.client spec _ _ _ uuid 1 0 1000)
        (λ _. Costs-pure none)
  read_back-Costs action values (some expected) uuid =
      then_still _ _ (raw-Costs env truncated service.client spec uuid)
        (λ object. then_still _ _ (still _) (λ _. then_still _ _ (still _) (λ _. Costs-pure _)))

  pub check_peer-Costs :
      (peer : Option Client) (uuid : String) (actual : Option Value)
      → Costs posts 0 (check_peer env truncated service spec peer uuid actual)
  unfolding check_peer
  check_peer-Costs none uuid actual = Costs-pure tt
  check_peer-Costs (some peer) uuid none = scan-Costs env truncated peer spec _ _ _ uuid 1 0 1000
  check_peer-Costs (some peer) uuid (some actual) =
      then_still _ _ (raw-Costs env truncated peer spec uuid)
        (λ object. Costs-if _ _ _ 0 (Costs-pure tt) (Costs-raise _))

  pub note-Costs :
      (action : Action) (uuid result : String) (payload : Value) (started : Trace)
      → Costs posts 0 (note env truncated service spec action uuid result payload started)
  unfolding note
  note-Costs action uuid result payload started =
      audit-Costs env truncated service.client spec service.has_log service.actor _ uuid result
        payload started

  apply_all-Costs :
      (paths : List String)
      → Costs posts (length paths) (apply_all env truncated service spec paths)
  unfolding apply_all
  apply_all-Costs [] = Costs-pure tt
  apply_all-Costs (path ∷ paths) =
      Costs-le (1 + length paths) (length (path ∷ paths)) (omega arith) (
        Costs-bind _ _ 1 (length paths) (call_post-Costs env truncated service.client spec path _)
          (λ response. then_still_some (length paths) _ _ (still _) (λ _. apply_all-Costs paths)))
    where
      then_still_some :
          {A B : Type 0} (k : ℕ) (m : M A) (f : A → M B)
          → Costs posts 0 m
          → ((a : A) → Costs posts k (f a))
          → Costs posts k (m >>= f)
      then_still_some k m f hm hf = Costs-le (0 + k) k (omega arith) (Costs-bind m f 0 k hm hf)

  submit-Costs :
      (action : Action) (payload : Value)
      → Costs spent 1 (submit env truncated service spec action payload)
  unfolding submit modify
  submit-Costs action payload =
      free 1 _ _ (record { above = λ s. omega arith; below = λ s. omega arith })
        (λ _. free 1 _ _ (Costs-gets _) (λ s. free 1 _ _ (wire 0 _ (still _)) (λ path.
          paid 1 _ _ (wire 1 _ (call_post-Costs env truncated service.client spec path payload))
            (λ response. free 0 _ _ (wire 0 _ (still _)) (λ _.
              free 0 _ _ (wire 0 _ (still _)) (λ uuid.
                free 0 _ _ (record { above = λ s. omega arith; below = λ s. omega arith })
                  (λ _. Costs-pure uuid)))))))

  activate-Costs : Costs spent (length spec.apply) (activate env truncated service spec)
  unfolding activate at_stage
  activate-Costs =
      free _ _ _ (record { above = λ s. omega arith; below = λ s. omega arith })
        (λ _.
          Costs-if _ _ _ (length spec.apply)
            (wire (length spec.apply) _ (apply_all-Costs spec.apply))
            (Costs-le 0 (length spec.apply) (omega arith) (Costs-raise _)))

  perform-Costs :
      (action : Action) (values : Value) (expected : Option Value) (payload : Value)
      (started : Trace)
      → Costs spent
          (1 + length spec.apply)
          (perform env truncated service spec action values expected payload started)
  unfolding perform at_stage
  perform-Costs action values expected payload started =
      Costs-bind _ _ 1 (length spec.apply) (submit-Costs action payload) (λ uuid.
        paid (length spec.apply) _ _ activate-Costs (λ _.
          free 0 _ _ (record { above = λ s. omega arith; below = λ s. omega arith })
            (λ _. free 0 _ _ (wire 0 _ (read_back-Costs action _ expected uuid)) (λ actual.
              free 0 _ _ (wire 0 _ (check_peer-Costs service.peer uuid actual)) (λ _.
                free 0 _ _ (wire 0 _ (note-Costs action uuid _ payload started))
                  (λ _. wire 0 _ (still _)))))))

  handle-Costs :
      (action : Action) (payload : Value) (started : Trace) (e : Exn)
      → Costs spent 0 (handle env truncated service spec action payload started e)
  unfolding handle
  handle-Costs action payload started (management e) = free 0 _ _ (Costs-gets _) (λ s.
      free 0 _ _
        (wire 0 _ (Costs-attempt is_management _ 0 (note-Costs action s.uuid _ payload started)))
        (λ written. Costs-raise _))
  handle-Costs action payload started _ = Costs-raise _

  pub attempt_change-Costs :
      (action : Action) (uuid : String) (values : Value) (expected : Option Value) (payload : Value)
      (started : Trace)
      → Costs posts
          (1 + length spec.apply)
          (attempt_change env truncated service spec action uuid values expected payload started)
  unfolding attempt_change first_run
  attempt_change-Costs action uuid values expected payload started =
      let c = Costs-le (1 + length spec.apply + 0) (1 + length spec.apply) (omega arith) (
        Costs-catch is_management _ _ (1 + length spec.apply) 0
          (perform-Costs action values expected payload started)
          (handle-Costs action payload started)) in
      record {
        above = λ t. c.above (first_run env truncated service spec uuid t);
        below = λ t. c.below (first_run env truncated service spec uuid t);
      }
