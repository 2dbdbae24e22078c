-- ===== src/Control/Handlers.antt =====
-- internal/control/server.go: the request handlers. The server holds `containerMu` for the whole of a
-- container request, so each request is one step. What the JSON decoder reads is part of the request.
pub mod Laws
pub mod Registry
mod Tests
use netns_mcast_relay.Base.{
  ℕ, Bool, true, false, not, ◌&&◌, Option, none, some, List, [], ◌∷◌, Text, ◌==◌, text_eq, Map,
  lookup, insert, delete, length, if◌then◌else◌, codes,
}
use netns_mcast_relay.Paths.{trim_space, contains}
use netns_mcast_relay.Control.Accept.{
  is_container_id, RequestError, invalid_json_body, path_required, request_body_too_large,
  invalid_container_id, Accepted, ok, err, canonicalize_namespace_path,
}

-- What decoding the body into the payload gives: the path, or an error that is or is not an
-- *http.MaxBytesError.
pub data Decoded : Type 0 where
  decoded : Text → Decoded
  decode_failed : Bool → Decoded

-- What decoding a second value gives: io.EOF, or something else, which is or is not a MaxBytesError.
pub data Trailing : Type 0 where
  at_eof : Trailing
  not_eof : Bool → Trailing

pub record Body : Type 0 where
  pub content_type : Text
  pub first : Decoded
  pub second : Trailing

abbrev pub body_error : Bool → RequestError
body_error too_large = if too_large then request_body_too_large else invalid_json_body

abbrev pub payload_path : Decoded → Trailing → Accepted
payload_path (decode_failed too_large) second = err (body_error too_large)
payload_path (decoded path) (not_eof too_large) = err (body_error too_large)
payload_path (decoded path) at_eof =
    if trim_space path == [] then err path_required else ok (trim_space path)

-- extractNamespacePath
unfoldable pub extract_namespace_path : Body → Accepted
extract_namespace_path body =
    if contains body.content_type (codes "application/json")
    then payload_path body.first body.second
    else err invalid_json_body

pub data Operation : Type 0 where
  add remove upsert : Operation

pub data Payload : Type 0 where
  healthy : Payload
  listing : List Text → ℕ → Payload
  -- accepted, not applied; the container ID and the path, where the answer has them
  intent : Operation → Option Text → Option Text → Payload
  request_error : RequestError → Payload
  controller_error : Payload

pub record Response : Type 0 where
  pub status : ℕ
  pub payload : Payload

abbrev pub respond : ℕ → Payload → Response
respond status payload = record { status = status; payload = payload }

abbrev pub is_too_large : RequestError → Bool
is_too_large request_body_too_large = true
is_too_large _ = false

-- writeRequestError
abbrev pub write_request_error : RequestError → Response
write_request_error e =
    if is_too_large e then respond 413 (request_error e) else respond 400 (request_error e)

pub data Checked : Type 0 where
  path_of : Text → Checked
  refuse : Response → Checked

abbrev pub canonical_or_refuse : Accepted → Checked
canonical_or_refuse (err e) = refuse (respond 400 (request_error e))
canonical_or_refuse (ok path) = path_of path

abbrev pub extracted_or_refuse : Accepted → Checked
extracted_or_refuse (err e) = refuse (write_request_error e)
extracted_or_refuse (ok path) = canonical_or_refuse (canonicalize_namespace_path path)

-- How every handler with a body begins.
unfoldable pub check_path : Body → Checked
check_path body = extracted_or_refuse (extract_namespace_path body)

-- NamespaceController, over a state `C`; `true` is a nil error.
pub record Controller (C : Type 0) : Type 0 where
  pub add_namespace : Text → C → Bool × C
  pub remove_namespace : Text → C → Bool × C
  pub active_namespaces : C → List Text

pub data Request : Type 0 where
  get_healthz get_namespaces : Request
  post_add post_remove : Body → Request
  put_container : Text → Body → Request
  delete_container : Text → Request

module _ {C : Type 0} (ctl : Controller C) where
  pub record Server : Type 0 where
    pub controller : C
    pub container_namespaces : Map Text Text

  abbrev pub answer : Bool → Payload → Response
  answer accepted payload = if accepted then respond 202 payload else respond 500 controller_error

  -- POST /v1/namespaces/add and /remove, once the path is accepted.
  abbrev pub on_add : Text → Server → Server × Response
  on_add path s =
      let (accepted, c) = ctl.add_namespace path s.controller in
      (record s { controller = c }, answer accepted (intent add none (some path)))

  abbrev pub on_remove : Text → Server → Server × Response
  on_remove path s =
      let (accepted, c) = ctl.remove_namespace path s.controller in
      (record s { controller = c }, answer accepted (intent remove none (some path)))

  -- The removal of the path that the container had, if that is another one.
  abbrev pub remove_old : Option Text → Text → C → Bool × C
  remove_old none path c = (true, c)
  remove_old (some old) path c = if old == path then (true, c) else ctl.remove_namespace old c

  -- The addition, and the registration if it was accepted.
  abbrev pub register : Text → Text → Server → Server × Response
  register id path s =
      let (accepted, c) = ctl.add_namespace path s.controller in
      if accepted
      then (
        record { controller = c; container_namespaces = insert id path s.container_namespaces },
        respond 202 (intent upsert (some id) (some path)),
      )
      else (record s { controller = c }, respond 500 controller_error)

  -- PUT /v1/containers/{id}/namespace, once ID and path are accepted.
  unfoldable pub on_put : Text → Text → Server → Server × Response
  on_put id path s =
      let (accepted, c) = remove_old (lookup id s.container_namespaces) path s.controller in
      if accepted
      then register id path (record s { controller = c })
      else (record s { controller = c }, respond 500 controller_error)

  -- DELETE /v1/containers/{id}/namespace, once the ID is accepted.
  abbrev pub unregister : Text → Option Text → Server → Server × Response
  unregister id none s = (s, respond 202 (intent remove (some id) none))
  unregister id (some path) s =
      let (accepted, c) = ctl.remove_namespace path s.controller in
      if accepted
      then (
        record { controller = c; container_namespaces = delete id s.container_namespaces },
        respond 202 (intent remove (some id) none),
      )
      else (record s { controller = c }, respond 500 controller_error)

  unfoldable pub on_delete : Text → Server → Server × Response
  on_delete id s = unregister id (lookup id s.container_namespaces) s

  abbrev pub with_path : Checked → (Text → Server → Server × Response) → Server → Server × Response
  with_path (refuse r) k s = (s, r)
  with_path (path_of path) k s = k path s

  abbrev pub bad_id : Server → Server × Response
  bad_id s = (s, respond 400 (request_error invalid_container_id))

  unfoldable pub handle : Request → Server → Server × Response
  handle get_healthz s = (s, respond 200 healthy)
  handle get_namespaces s =
      let namespaces = ctl.active_namespaces s.controller in
      (s, respond 200 (listing namespaces (length namespaces)))
  handle (post_add body) s = with_path (check_path body) on_add s
  handle (post_remove body) s = with_path (check_path body) on_remove s
  handle (put_container id body) s =
      if is_container_id id then with_path (check_path body) (on_put id) s else bad_id s
  handle (delete_container id) s = if is_container_id id then on_delete id s else bad_id s

  unfoldable pub new_server : C → Server
  new_server c = record { controller = c; container_namespaces = [] }

  unfoldable pub serve : List Request → Server → Server
  serve [] s = s
  serve (r ∷ rs) s = serve rs (handle r s).0
