-- ===== src/Examples/Creates.antt =====
-- Writes of `src/writers/rule.py` on concrete firewalls.
use pegaprox_plugin_opnsense.Prelude.{
  take_chars, ◌+◌, ◌<>◌, true, Option, none, some, [], ◌∷◌, ◌≡◌, refl,
}
use pegaprox_plugin_opnsense.Value
use pegaprox_plugin_opnsense.Value.{Value, null, str, dict, end, truthy, text_of}
use pegaprox_plugin_opnsense.Exec.{
  Exn, Result, ok, raised, pure, raise, catch, gets, attempt, ◌>>=◌, value_error, attribute_error,
  message,
}
use pegaprox_plugin_opnsense.Exec.Costs.{Costs}
use pegaprox_plugin_opnsense.World.{Env, sent, Trace, sleep}
use pegaprox_plugin_opnsense.Client
use pegaprox_plugin_opnsense.Client.{rooted, backoff, judge, transmit, attempt_loop, request}
use pegaprox_plugin_opnsense.Client.Posts.{posts, audits}
use pegaprox_plugin_opnsense.Client.Verbs.{post_http}
use pegaprox_plugin_opnsense.Audit.{hash_payload, fingerprint, now, append, record_outcome}
use pegaprox_plugin_opnsense.Ha.{
  HaVerifier, SyncResult, blank, sync, read_peer, robust_round, robust_loop, robust_peer,
  verify_robust,
}
use pegaprox_plugin_opnsense.Writers.{
  WriteResult, refused, Notes, note, apply, maybe_sync, finish, uuid_in, create_applied,
  create_uuid, create_posted, create_row,
}
use pegaprox_plugin_opnsense.Writers.Rule
use pegaprox_plugin_opnsense.Writers.Steps.{logged}
use pegaprox_plugin_opnsense.Writers.Create.{
  apply_request, delete_request, failure_entry, success_entry, t_added, create_row_rejected,
  create_row_no_object, create_row_rolls_back, create_row_finishes, t_applied,
}
use pegaprox_plugin_opnsense.Writers.Audited.{create_row-audits, create_row_unaudited}
use pegaprox_plugin_opnsense.Writers.Change.{create_row-Costs}
use pegaprox_plugin_opnsense.Examples.{
  good_env, down_env, broken_env, blind_env, env_of, good_reply, client, rule_writer, ha, the_uuid,
}

abbrev notes : Notes
notes = record {
  post_target = "wan";
  late_target = "wan";
  ok_target = λ uuid. uuid;
  ok_detail = λ uuid. "";
}

abbrev exn_of : Result Value × Trace → Exn
exn_of (ok v, t) = value_error ""
exn_of (raised e, t) = e

-- A firewall that is down.
abbrev down : Exn
down = exn_of (Client.post down_env client Rule.resource.add_path null [])

down_raised : (Client.post down_env client Rule.resource.add_path null []).0 ≡ raised down
unfolding Value.get Value.get_or truthy text_of ◌>>=◌ pure raise catch gets attempt rooted backoff
    judge transmit attempt_loop request Client.get Client.post sleep uuid_in
down_raised = refl

create_row_rejected_example : create_row down_env (rule_writer none) Rule.resource notes null [] ≡ (
  ok (refused "" (message down)),
  logged down_env
      (failure_entry down_env
        (rule_writer none)
        Rule.resource
        ".create"
        "wan"
        (message down)
        (t_added down_env (rule_writer none) Rule.resource notes null []))
      (t_added down_env (rule_writer none) Rule.resource notes null []),
)
create_row_rejected_example =
    create_row_rejected down_env (rule_writer none) Rule.resource notes null [] down down_raised

-- A reply without a uuid, and one that is no object.
unnamed_posted :
    (Client.post (env_of (dict end)) client Rule.resource.add_path null []).0 ≡ ok (dict end)
unfolding Value.get Value.get_or truthy text_of ◌>>=◌ pure raise catch gets attempt rooted backoff
    judge transmit attempt_loop request Client.get Client.post sleep uuid_in
unnamed_posted = refl

unnamed : uuid_in (env_of (dict end)) (rule_writer none) Rule.resource (dict end) ≡ ok ""
unfolding Value.get Value.get_or truthy text_of ◌>>=◌ pure raise catch gets attempt rooted backoff
    judge transmit attempt_loop request Client.get Client.post sleep uuid_in
unnamed = refl

text_posted :
    (Client.post (env_of (str "?")) client Rule.resource.add_path null []).0 ≡ ok (str "?")
unfolding Value.get Value.get_or truthy text_of ◌>>=◌ pure raise catch gets attempt rooted backoff
    judge transmit attempt_loop request Client.get Client.post sleep uuid_in
text_posted = refl

create_row_no_object_example :
    create_row (env_of (str "?")) (rule_writer none) Rule.resource notes null [] ≡ (
      raised (attribute_error "object has no attribute 'get'"),
      t_added (env_of (str "?")) (rule_writer none) Rule.resource notes null [],
    )
create_row_no_object_example =
    create_row_no_object (env_of (str "?")) (rule_writer none) Rule.resource notes null [] (str "?")
      text_posted refl

-- A firewall whose apply action fails.
broken_posted : (Client.post broken_env client Rule.resource.add_path null []).0 ≡ ok good_reply
unfolding Value.get Value.get_or truthy text_of ◌>>=◌ pure raise catch gets attempt rooted backoff
    judge transmit attempt_loop request Client.get Client.post sleep uuid_in
broken_posted = refl

abbrev broken : Exn
broken = exn_of (
    Client.post broken_env client Rule.resource.apply_path (dict end)
      (t_added broken_env (rule_writer none) Rule.resource notes null []))

broken_raised :
    (Client.post broken_env client Rule.resource.apply_path
      (dict end)
      (t_added broken_env (rule_writer none) Rule.resource notes null [])).0
    ≡ raised broken
unfolding Value.get Value.get_or truthy text_of ◌>>=◌ pure raise catch gets attempt rooted backoff
    judge transmit attempt_loop request Client.get Client.post sleep uuid_in
broken_raised = refl

named :
    (env : Env) (h : Option HaVerifier)
    → uuid_in env (rule_writer h) Rule.resource good_reply ≡ ok the_uuid
unfolding Value.get Value.get_or truthy text_of ◌>>=◌ pure raise catch gets attempt rooted backoff
    judge transmit attempt_loop request Client.get Client.post sleep uuid_in
named env h = refl

create_row_rolls_back_example :
    let t =
      t_applied broken_env
        (rule_writer none)
        Rule.resource
        notes
        null
        []
        good_reply
        broken_posted
        the_uuid
        (named broken_env none)
        refl in
    let u = sent (delete_request broken_env (rule_writer none) Rule.resource the_uuid) ∷ t in
    create_row broken_env (rule_writer none) Rule.resource notes null [] ≡ (
      ok (refused "" ("apply" <> " failed → rolled back: " <> message broken)),
      logged broken_env
          (failure_entry broken_env
            (rule_writer none)
            Rule.resource
            ".create"
            "wan"
            ("apply" <> " failed → rolled back: " <> message broken)
            u)
          u,
    )
create_row_rolls_back_example =
    create_row_rolls_back broken_env (rule_writer none) Rule.resource notes null [] good_reply
      broken_posted the_uuid (named broken_env none) refl broken broken_raised

-- A firewall that accepts everything.
good_posted : (Client.post good_env client Rule.resource.add_path null []).0 ≡ ok good_reply
unfolding Value.get Value.get_or truthy text_of ◌>>=◌ pure raise catch gets attempt rooted backoff
    judge transmit attempt_loop request Client.get Client.post sleep uuid_in
good_posted = refl

good_applied :
    (Client.post good_env client Rule.resource.apply_path
      (dict end)
      (t_added good_env (rule_writer none) Rule.resource notes null [])).0
    ≡ ok good_reply
unfolding Value.get Value.get_or truthy text_of ◌>>=◌ pure raise catch gets attempt rooted backoff
    judge transmit attempt_loop request Client.get Client.post sleep uuid_in
good_applied = refl

-- The check of its peer, which shows the same rows
abbrev good_trace : Trace
good_trace =
    sent (apply_request good_env (rule_writer (some ha)) Rule.resource)
    ∷ t_added good_env (rule_writer (some ha)) Rule.resource notes null []

abbrev checked : Result SyncResult × Trace
checked = verify_robust good_env ha Rule.resource.search_path 5 400 good_trace

abbrev checked_or : Result SyncResult → SyncResult
checked_or (ok s) = s
checked_or (raised e) = blank

same_rows : checked ≡ (ok (checked_or checked.0), checked.1)
unfolding Value.get Value.get_or truthy text_of ◌>>=◌ pure raise catch gets attempt rooted backoff
    judge transmit attempt_loop request Client.get Client.post sleep message now hash_payload
    fingerprint take_chars sync read_peer robust_round robust_loop robust_peer verify_robust
same_rows = refl

create_row_finishes_example :
    let entry =
      success_entry good_env
        (rule_writer (some ha))
        Rule.resource
        notes
        null
        []
        good_reply
        good_posted
        the_uuid
        (named good_env (some ha))
        refl
        checked.1 in
    create_row good_env (rule_writer (some ha)) Rule.resource notes null [] ≡ (
      ok (record {
        ok_flag = true;
        uuid = the_uuid;
        detail = "";
        sync = some (checked_or checked.0);
        audit = some entry;
      }),
      logged good_env entry checked.1,
    )
create_row_finishes_example =
    create_row_finishes good_env (rule_writer (some ha)) Rule.resource notes null [] good_reply
      good_posted the_uuid (named good_env (some ha)) refl good_reply (some (checked_or checked.0))
      checked.1 good_applied (checked_or checked.0, same_rows, refl)

abbrev created_of : Result WriteResult × Trace → WriteResult
created_of (ok x, t) = x
created_of (raised e, t) = refused "" ""

abbrev created : WriteResult
created = created_of (create_row good_env (rule_writer none) Rule.resource notes null [])

created_returned :
    (create_row good_env (rule_writer none) Rule.resource notes null []).0 ≡ ok created
unfolding Value.get Value.get_or truthy text_of ◌>>=◌ pure raise catch gets attempt rooted backoff
    judge transmit attempt_loop request Client.get Client.post sleep uuid_in message now append
    record_outcome hash_payload fingerprint take_chars note apply maybe_sync finish create_applied
    create_uuid create_posted create_row sync read_peer robust_round robust_loop robust_peer
    verify_robust
created_returned = refl

create_row-audits_example :
    audits (create_row good_env (rule_writer none) Rule.resource notes null []).1 ≡ 1 + audits []
create_row-audits_example =
    create_row-audits good_env (rule_writer none) Rule.resource notes null [] created (λ t e. refl)
      created_returned

-- A firewall whose listing cannot be read.
blind_posted : (Client.post blind_env client Rule.resource.add_path null []).0 ≡ ok good_reply
unfolding Value.get Value.get_or truthy text_of ◌>>=◌ pure raise catch gets attempt rooted backoff
    judge transmit attempt_loop request Client.get Client.post sleep uuid_in
blind_posted = refl

blind_applied :
    (Client.post blind_env client Rule.resource.apply_path
      (dict end)
      (t_added blind_env (rule_writer (some ha)) Rule.resource notes null [])).0
    ≡ ok good_reply
unfolding Value.get Value.get_or truthy text_of ◌>>=◌ pure raise catch gets attempt rooted backoff
    judge transmit attempt_loop request Client.get Client.post sleep uuid_in
blind_applied = refl

abbrev blind_trace : Trace
blind_trace =
    sent (apply_request blind_env (rule_writer (some ha)) Rule.resource)
    ∷ t_added blind_env (rule_writer (some ha)) Rule.resource notes null []

abbrev blind : Exn
blind = exn_of (Client.get blind_env client Rule.resource.search_path end blind_trace)

blind_raised :
    (Client.get blind_env client Rule.resource.search_path end blind_trace).0 ≡ raised blind
unfolding Value.get Value.get_or truthy text_of ◌>>=◌ pure raise catch gets attempt rooted backoff
    judge transmit attempt_loop request Client.get Client.post sleep uuid_in
blind_raised = refl

create_row_unaudited_example :
    ((create_row blind_env (rule_writer (some ha)) Rule.resource notes null []).0 ≡ raised blind)
    × (audits (create_row blind_env (rule_writer (some ha)) Rule.resource notes null []).1
        ≡ audits [])
    × (posts (create_row blind_env (rule_writer (some ha)) Rule.resource notes null []).1
        ≡ 2 + posts [])
create_row_unaudited_example =
    create_row_unaudited blind_env (rule_writer (some ha)) Rule.resource notes null [] good_reply
      good_reply the_uuid ha blind blind_posted (named blind_env (some ha)) refl blind_applied refl
      blind_raised

create_row-Costs_example :
    Costs posts 3 (create_row down_env (rule_writer (some ha)) Rule.resource notes null)
create_row-Costs_example =
    create_row-Costs down_env (rule_writer (some ha)) Rule.resource notes null

-- Changes whose apply action fails.
broken_set :
    (Client.post broken_env client ("/api/firewall/filter/setRule/" <> the_uuid) null []).0
    ≡ ok good_reply
unfolding Value.get Value.get_or truthy text_of ◌>>=◌ pure raise catch gets attempt rooted backoff
    judge transmit attempt_loop request Client.get Client.post sleep uuid_in ◌<>◌
broken_set = refl

abbrev t_set : Trace
t_set = sent (post_http client ("/api/firewall/filter/setRule/" <> the_uuid) null) ∷ []

broken_after_set :
    (Client.post broken_env client Rule.resource.apply_path (dict end) t_set).0 ≡ raised broken
unfolding Value.get Value.get_or truthy text_of ◌>>=◌ pure raise catch gets attempt rooted backoff
    judge transmit attempt_loop request Client.get Client.post sleep uuid_in
broken_after_set = refl

broken_del :
    (Client.post broken_env client (Rule.resource.delete_path <> the_uuid) (dict end) []).0
    ≡ ok good_reply
unfolding Value.get Value.get_or truthy text_of ◌>>=◌ pure raise catch gets attempt rooted backoff
    judge transmit attempt_loop request Client.get Client.post sleep uuid_in ◌<>◌
broken_del = refl

abbrev t_del : Trace
t_del = sent (post_http client (Rule.resource.delete_path <> the_uuid) (dict end)) ∷ []

broken_after_del :
    (Client.post broken_env client Rule.resource.apply_path (dict end) t_del).0 ≡ raised broken
unfolding Value.get Value.get_or truthy text_of ◌>>=◌ pure raise catch gets attempt rooted backoff
    judge transmit attempt_loop request Client.get Client.post sleep uuid_in
broken_after_del = refl
