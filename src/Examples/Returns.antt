-- ===== src/Examples/Returns.antt =====
-- An update by `src/management/engine.py` on a firewall and a peer that do what they are asked for.
use pegaprox_plugin_opnsense.Prelude.{String, Bool, true, false, some, [], ◌≡◌, refl, ◌==◌}
use pegaprox_plugin_opnsense.Value.{Value, null, str, dict, Fields, end, field, entries, fields_of}
use pegaprox_plugin_opnsense.Exec.{ok}
use pegaprox_plugin_opnsense.World.{Trace}
use pegaprox_plugin_opnsense.Prelude.{
  lower, join_comma, all_chars, count_chars, split_on, has_char, rstrip_char,
}
use pegaprox_plugin_opnsense.Value
use pegaprox_plugin_opnsense.Exec.{attempt}
use pegaprox_plugin_opnsense.Client
use pegaprox_plugin_opnsense.Audit.{hash_payload}
use pegaprox_plugin_opnsense.Verified.Checks.{validate_uuid, validate_revision}
use pegaprox_plugin_opnsense.Engine.{by_name, field_named}
use pegaprox_plugin_opnsense.Engine.Names.{get_name, get_of, put_of}
use pegaprox_plugin_opnsense.Engine.Replies.{path_of, ack, selected, selected_fields}
use pegaprox_plugin_opnsense.Engine.Service.{call_post, raw}
use pegaprox_plugin_opnsense.Engine.Readback.{compare_fields}
use pegaprox_plugin_opnsense.Engine.Change.{check_peer}
use pegaprox_plugin_opnsense.Engine.Mutate.{expected_of, mutate_locked, admitted, mutate}
use pegaprox_plugin_opnsense.Engine.{update}
use pegaprox_plugin_opnsense.Engine.Returns.{Returns, mutate-Returns}
use pegaprox_plugin_opnsense.Examples.{client, peer, the_uuid}
use pegaprox_plugin_opnsense.Examples.Management.{
  fair_env, truncated, service, things, rename, reply, digest,
}

abbrev thing : Value
thing = dict (field "name" (str "b") end)

answered :
    (path : String) (payload : Value) (u : Trace)
    → call_post fair_env truncated client things path payload u
      ≡ (ok reply, (call_post fair_env truncated client things path payload u).1)
unfolding attempt Client.judge Client.transmit Client.post mutate
answered path payload u = refl

confirmed : (apply : Bool) → ack fair_env.repr things apply reply ≡ ok tt
unfolding lower Value.get_or Value.truthy Value.text_of mutate
confirmed true = refl
confirmed false = refl

read :
    (u : Trace)
    → raw fair_env truncated client things the_uuid u
      ≡ (ok thing, (raw fair_env truncated client things the_uuid u).1)
unfolding attempt Client.judge Client.transmit Client.get get_name path_of mutate
read u = refl

agreed :
    (u : Trace)
    → check_peer fair_env truncated service things
        (some peer)
        the_uuid
        (some (selected fair_env.repr thing))
        u
      ≡ (
        ok tt,
        (check_peer fair_env truncated service things
            (some peer)
            the_uuid
            (some (selected fair_env.repr thing))
            u).1,
      )
unfolding attempt Client.judge Client.transmit Client.get hash_payload get_of path_of
    selected_fields mutate_locked
agreed u = refl

located :
    path_of things (some "set") the_uuid ≡ ok "/api/things/set/12345678-1234-1234-1234-123456789abc"
unfolding join_comma rstrip_char path_of
located = refl

abbrev set_name : Fields
set_name = field "name" (str "b") end

compared_equal :
    compare_fields fair_env.repr set_name (selected fair_env.repr thing) thing things.fields ≡ ok tt
unfolding Value.text_of get_of selected_fields mutate_locked
compared_equal = refl

found : Value.get "values" (fields_of rename) ≡ some (dict set_name)
unfolding Value.has_key
found = refl

same_hash : (hash_payload fair_env (selected fair_env.repr thing) == digest) ≡ true
unfolding hash_payload selected_fields
same_hash = refl

computed :
    expected_of fair_env truncated service things update
      (dict set_name)
      (selected fair_env.repr thing)
    ≡ ok (some thing)
unfolding count_chars has_char by_name field_named get_of put_of selected_fields mutate
computed = refl

accepted : admitted fair_env truncated service things rename ≡ ok (update, the_uuid, digest)
unfolding lower all_chars count_chars split_on Value.get_or validate_uuid validate_revision path_of
    mutate
accepted = refl

mutate-Returns_example :
    (result : Fields) × Returns (mutate fair_env truncated service things rename []) result
mutate-Returns_example =
    mutate-Returns fair_env truncated service things refl (λ u entry. refl)
      (λ path payload u. (
        reply,
        (
          (call_post fair_env truncated client things path payload u).1,
          (answered path payload u, confirmed false, confirmed true),
        ),
      ))
      the_uuid "/api/things/set/12345678-1234-1234-1234-123456789abc" set_name thing thing thing []
      located refl ((raw fair_env truncated client things the_uuid []).1, read [])
      (λ u later. ((raw fair_env truncated client things the_uuid u).1, read u)) compared_equal refl
      (λ u. (
        (check_peer fair_env truncated service things (some peer) the_uuid
            (some (selected fair_env.repr thing)) u).1,
        agreed u,
      ))
      (fields_of rename) digest found same_hash computed accepted refl
