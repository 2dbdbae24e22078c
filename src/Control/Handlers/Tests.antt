-- ===== src/Control/Handlers/Tests.antt =====
-- Requests at concrete inputs. The controller keeps the commands that it takes, newest first, and
-- takes three at most.
use netns_mcast_relay.Base.{
  ◌≡◌, refl, Bool, true, false, some, List, [], ◌∷◌, Text, text_beq, text_eq, codes, lookup, insert,
  length, replicate, ltb, arith, if◌then◌else◌,
}
use netns_mcast_relay.Paths.{trim_space, clean, contains}
use netns_mcast_relay.Netns.{canonicalize_path}
use netns_mcast_relay.Control.Accept.{
  is_container_id, is_namespace_path, canonicalize_namespace_path,
}
use netns_mcast_relay.Control.Handlers.{
  Body, decoded, at_eof, extract_namespace_path, check_path, path_of, Controller, put_container,
  delete_container, post_add, Server, on_put, handle, new_server, serve,
}
use netns_mcast_relay.Control.Handlers.Laws.{
  client_error_unchanged, put_accepted, put_half_done, Moved, Stuck,
}
use netns_mcast_relay.Control.Handlers.Registry.{IsRegistry, serve-new_server-IsRegistry}

abbrev take : Bool → Text → List (Bool × Text) → Bool × List (Bool × Text)
take op path log = if ltb (length log) 3 then (true, (op, path) ∷ log) else (false, log)

abbrev logging : Controller (List (Bool × Text))
logging = record {
  add_namespace = take true;
  remove_namespace = take false;
  active_namespaces = λ log. [];
}

abbrev id : Text
id = replicate 64 b'a'

abbrev body : Text → Body
body path = record {
  content_type = codes "application/json";
  first = decoded path;
  second = at_eof;
}

abbrev seven : Text
seven = codes "/proc/7/ns/net"

abbrev nine : Text
nine = codes "/proc/9/ns/net"

abbrev served : Server logging
served = record { controller = (true, seven) ∷ []; container_namespaces = (id, seven) ∷ [] }

abbrev busy : Server logging
busy = record served { controller = (true, seven) ∷ (true, seven) ∷ [] }

serve_runs :
    serve logging
      (put_container id (body seven) ∷ put_container id (body nine) ∷ [])
      (new_server logging [])
    ≡ record {
      controller = (true, nine) ∷ (false, seven) ∷ (true, seven) ∷ [];
      container_namespaces = (id, nine) ∷ [];
    }
unfolding serve new_server handle on_put is_container_id check_path extract_namespace_path contains
    trim_space clean canonicalize_namespace_path canonicalize_path is_namespace_path lookup insert
serve_runs = refl

client_error_unchanged_example : (handle logging (post_add (body (codes "/tmp"))) served).0 ≡ served
unfolding handle check_path extract_namespace_path contains trim_space clean
    canonicalize_namespace_path canonicalize_path is_namespace_path
client_error_unchanged_example =
    client_error_unchanged logging (post_add (body (codes "/tmp"))) served (omega arith)
      (omega arith)

put_accepted_example :
    (path : Text) × (check_path (body nine) ≡ path_of path)
    × (lookup id (handle logging (put_container id (body nine)) served).0.container_namespaces
        ≡ (if text_beq id id then some path else lookup id served.container_namespaces))
    × Moved logging path
        (lookup id served.container_namespaces)
        served.controller
        (handle logging (put_container id (body nine)) served).0.controller
unfolding handle on_put is_container_id check_path extract_namespace_path contains trim_space clean
    canonicalize_namespace_path canonicalize_path is_namespace_path lookup insert
put_accepted_example = put_accepted logging id (body nine) served id refl

put_half_done_example :
    (path : Text) × (check_path (body nine) ≡ path_of path)
    × ((handle logging (put_container id (body nine)) busy).0.container_namespaces
        ≡ busy.container_namespaces)
    × Stuck logging path
        (lookup id busy.container_namespaces)
        busy.controller
        (handle logging (put_container id (body nine)) busy).0.controller
unfolding handle on_put is_container_id check_path extract_namespace_path contains trim_space clean
    canonicalize_namespace_path canonicalize_path is_namespace_path lookup insert
put_half_done_example = put_half_done logging id (body nine) busy refl

serve-new_server-IsRegistry_example : IsRegistry logging (
    serve logging
      (put_container id (body seven) ∷ delete_container id ∷ [])
      (new_server logging []))
serve-new_server-IsRegistry_example =
    serve-new_server-IsRegistry logging (put_container id (body seven) ∷ delete_container id ∷ [])
      []
