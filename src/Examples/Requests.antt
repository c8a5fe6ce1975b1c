-- ===== src/Examples/Requests.antt =====
-- Requests and checks of a peer on concrete firewalls.
use pegaprox_plugin_opnsense.Prelude.{take_chars, ◌+◌, ◌≤◌, true, [], ◌∷◌, ◌≡◌, refl, arith}
use pegaprox_plugin_opnsense.Value
use pegaprox_plugin_opnsense.Value.{Value, null, end, truthy, text_of}
use pegaprox_plugin_opnsense.Exec.{
  Exn, Result, ok, raised, pure, raise, catch, ◌>>=◌, is_opnsense, value_error,
}
use pegaprox_plugin_opnsense.Exec.Costs.{Costs}
use pegaprox_plugin_opnsense.World.{sent, Trace, number_of, is_get, sleep}
use pegaprox_plugin_opnsense.Client
use pegaprox_plugin_opnsense.Client.{rooted, backoff, judge, transmit, attempt_loop, request}
use pegaprox_plugin_opnsense.Client.Attempts.{Answered}
use pegaprox_plugin_opnsense.Client.Posts.{posts}
use pegaprox_plugin_opnsense.Client.Verbs.{
  post_http, get_http, post-one_request, get-requests, get-answer, get-raised,
}
use pegaprox_plugin_opnsense.Audit.{fingerprint}
use pegaprox_plugin_opnsense.Ha.{
  SyncResult, blank, sync, read_peer, robust_round, robust_loop, robust_peer, verify_robust,
}
use pegaprox_plugin_opnsense.Ha.Posts.{posts_measure, verify_robust-Costs}
use pegaprox_plugin_opnsense.Ha.Verdict.{Confirmed, verify_robust_verified, verify_robust_rounds}
use pegaprox_plugin_opnsense.Examples.{good_env, down_env, good_reply, client, peer, ha}

post-one_request_example :
    (Client.post down_env client "x" null []).1 ≡ sent (post_http client "x" null) ∷ []
post-one_request_example = post-one_request down_env client "x" null []

get-requests_example :
    number_of is_get (Client.get down_env client "x" end []).1 ≤ number_of is_get [] + 3
get-requests_example = get-requests down_env client "x" end []

got : (Client.get good_env client "x" end []).0 ≡ ok good_reply
unfolding Value.get Value.get_or truthy text_of ◌>>=◌ pure raise catch rooted backoff judge transmit
    attempt_loop request Client.get Client.post sleep
got = refl

get-answer_example :
    Answered good_env (get_http client "x" end) good_reply (Client.get good_env client "x" end []).1
get-answer_example = get-answer good_env client "x" end [] good_reply got

posted : (Client.post good_env client "x" null []).0 ≡ ok good_reply
unfolding Value.get Value.get_or truthy text_of ◌>>=◌ pure raise catch rooted backoff judge transmit
    attempt_loop request Client.get Client.post sleep
posted = refl

abbrev exn_of : Result Value × Trace → Exn
exn_of (ok v, t) = value_error ""
exn_of (raised e, t) = e

get_failed :
    (Client.get down_env client "x" end []).0
    ≡ raised (exn_of (Client.get down_env client "x" end []))
unfolding Value.get Value.get_or truthy text_of ◌>>=◌ pure raise catch rooted backoff judge transmit
    attempt_loop request Client.get Client.post sleep
get_failed = refl

get-raised_example : is_opnsense (exn_of (Client.get down_env client "x" end [])) ≡ true
get-raised_example =
    get-raised down_env client "x" end [] (exn_of (Client.get down_env client "x" end []))
      get_failed

post_failed :
    (Client.post down_env client "x" null []).0
    ≡ raised (exn_of (Client.post down_env client "x" null []))
unfolding Value.get Value.get_or truthy text_of ◌>>=◌ pure raise catch rooted backoff judge transmit
    attempt_loop request Client.get Client.post sleep
post_failed = refl

abbrev result_of : Result SyncResult × Trace → SyncResult
result_of (ok r, t) = r
result_of (raised e, t) = blank

abbrev checked : SyncResult
checked = result_of (verify_robust good_env ha "/api/firewall/filter/searchRule" 3 100 [])

checked_returned :
    (verify_robust good_env ha "/api/firewall/filter/searchRule" 3 100 []).0 ≡ ok checked
unfolding Value.get Value.get_or truthy text_of ◌>>=◌ pure raise catch rooted backoff judge transmit
    attempt_loop request Client.get Client.post sleep fingerprint sync read_peer robust_round
    robust_loop robust_peer verify_robust take_chars
checked_returned = refl

checked_verified : checked.verified ≡ true
unfolding Value.get Value.get_or truthy text_of ◌>>=◌ pure raise catch rooted backoff judge transmit
    attempt_loop request Client.get Client.post sleep fingerprint sync read_peer robust_round
    robust_loop robust_peer verify_robust take_chars
checked_verified = refl

verify_robust_verified_example :
    (local_payload : Value) × ((Client.get good_env client "/api/firewall/filter/searchRule" end
        []).0
      ≡ ok local_payload)
    × Confirmed good_env peer "/api/firewall/filter/searchRule"
        (fingerprint good_env local_payload)
        (verify_robust good_env ha "/api/firewall/filter/searchRule" 3 100 []).1
verify_robust_verified_example =
    verify_robust_verified good_env ha "/api/firewall/filter/searchRule" 3 100 peer [] checked refl
      (omega arith) checked_returned checked_verified

verify_robust_rounds_example : (1 ≤ checked.attempts) × (checked.attempts ≤ 3)
verify_robust_rounds_example =
    verify_robust_rounds good_env ha "/api/firewall/filter/searchRule" 3 100 peer [] checked refl
      (omega arith) checked_returned

verify_robust-Costs_example : Costs posts 1 (verify_robust down_env ha "x" 3 100)
verify_robust-Costs_example = verify_robust-Costs down_env 1 (posts_measure down_env) ha "x" 3 100
