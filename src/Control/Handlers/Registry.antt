-- ===== src/Control/Handlers/Registry.antt =====
-- internal/control/server.go: what the registry of containers holds after any requests.
use netns_mcast_relay.Base.{
  ◌≡◌, true, List, [], ◌∷◌, Text, text_eq, Map, insert, delete, arith, ◌⊎◌, inl, inr, Bool-cases,
  AllEntries, insert-AllEntries, delete-AllEntries, IsUnique, insert-IsUnique, delete-IsUnique,
  subst, sym,
}
use netns_mcast_relay.Control.Accept.{
  is_container_id, is_namespace_path, Accepted, ok, err, canonicalize_namespace_path,
}
use netns_mcast_relay.Control.Accept.Laws.{canonicalize_namespace_path-valid}
use netns_mcast_relay.Control.Handlers.Laws.{Checked-cases}
use netns_mcast_relay.Control.Handlers.{
  Body, path_of, canonical_or_refuse, extracted_or_refuse, check_path, extract_namespace_path,
  Controller, Request, get_healthz, get_namespaces, post_add, post_remove, put_container,
  delete_container, Server, on_put, on_delete, handle, new_server, serve,
}

-- A registered container has an accepted ID and an accepted path.
abbrev pub IsRegistrable : Text → Text → Type 0
IsRegistrable id path = (is_container_id id ≡ true) × (is_namespace_path path ≡ true)

canonical-path_of : (a : Accepted) (p : Text) → canonical_or_refuse a ≡ path_of p → a ≡ ok p
canonical-path_of (err e) p h = ground arith
canonical-path_of (ok q) p h = ground arith

extracted-path_of :
    (a : Accepted) (p : Text) → extracted_or_refuse a ≡ path_of p → is_namespace_path p ≡ true
extracted-path_of (err e) p h = ground arith
extracted-path_of (ok q) p h =
    canonicalize_namespace_path-valid q p (canonical-path_of (canonicalize_namespace_path q) p h)

check_path-valid :
    (body : Body) (p : Text) → check_path body ≡ path_of p → is_namespace_path p ≡ true
unfolding check_path
check_path-valid body p h = extracted-path_of (extract_namespace_path body) p h

module _ {C : Type 0} (ctl : Controller C) where
  pub record IsRegistry (s : Server ctl) : Type 0 where
    pub valid : AllEntries IsRegistrable s.container_namespaces
    pub unique : IsUnique s.container_namespaces

  put-cases :
      (id path : Text) (s : Server ctl)
      → ((on_put ctl id path s).0.container_namespaces ≡ s.container_namespaces)
        ⊎ ((on_put ctl id path s).0.container_namespaces ≡ insert id path s.container_namespaces)
  unfolding on_put
  put-cases id path s = ground arith

  delete-cases :
      (id : Text) (s : Server ctl)
      → ((on_delete ctl id s).0.container_namespaces ≡ s.container_namespaces)
        ⊎ ((on_delete ctl id s).0.container_namespaces ≡ delete id s.container_namespaces)
  unfolding on_delete
  delete-cases id s = ground arith

  moved :
      {t : Server ctl} (m : Map Text Text)
      → t.container_namespaces ≡ m
      → AllEntries IsRegistrable m
      → IsUnique m
      → IsRegistry t
  moved m e v u = record {
    valid = subst (AllEntries IsRegistrable) (sym e) v;
    unique = subst IsUnique (sym e) u;
  }

  put-IsRegistry :
      (id path : Text) (s : Server ctl)
      → is_container_id id ≡ true
      → is_namespace_path path ≡ true
      → IsRegistry s
      → IsRegistry (on_put ctl id path s).0
  put-IsRegistry id path s hid hp i = elim (put-cases id path s) [
    | inl e ↦ moved s.container_namespaces e i.valid i.unique
    | inr e ↦
        moved (insert id path s.container_namespaces) e
          (insert-AllEntries IsRegistrable id path s.container_namespaces (hid, hp) i.valid)
          (insert-IsUnique id path s.container_namespaces i.unique)
  ]

  delete-IsRegistry :
      (id : Text) (s : Server ctl) → IsRegistry s → IsRegistry (on_delete ctl id s).0
  delete-IsRegistry id s i = elim (delete-cases id s) [
    | inl e ↦ moved s.container_namespaces e i.valid i.unique
    | inr e ↦
        moved (delete id s.container_namespaces) e
          (delete-AllEntries IsRegistrable id s.container_namespaces i.valid)
          (delete-IsUnique id s.container_namespaces i.unique)
  ]

  handle-IsRegistry : (r : Request) (s : Server ctl) → IsRegistry s → IsRegistry (handle ctl r s).0
  unfolding handle
  handle-IsRegistry get_healthz s i = i
  handle-IsRegistry get_namespaces s i = i
  handle-IsRegistry (post_add body) s i =
      moved s.container_namespaces (ground arith) i.valid i.unique
  handle-IsRegistry (post_remove body) s i =
      moved s.container_namespaces (ground arith) i.valid i.unique
  handle-IsRegistry (put_container id body) s i = elim (Bool-cases (is_container_id id)) [
    | inl hid ↦ elim (Checked-cases (check_path body)) [
      | inl (p, e) ↦ rw (hid, e) (put-IsRegistry id p s hid (check_path-valid body p e) i)
      | inr (r, e) ↦ rw (hid, e) i
    ]
    | inr bad ↦ rw bad i
  ]
  handle-IsRegistry (delete_container id) s i = elim (Bool-cases (is_container_id id)) [
    | inl hid ↦ rw hid (delete-IsRegistry id s i)
    | inr bad ↦ rw bad i
  ]

  serve-IsRegistry :
      (rs : List Request) (s : Server ctl) → IsRegistry s → IsRegistry (serve ctl rs s)
  unfolding serve
  serve-IsRegistry [] s i = i
  serve-IsRegistry (r ∷ rs) s i = serve-IsRegistry rs (handle ctl r s).0 (handle-IsRegistry r s i)

  -- Whatever requests a new server has served, each registered container has an ID of 64 lowercase
  -- hexadecimal digits and a path of the form /proc/<pid>/ns/net, and none is registered twice.
  pub serve-new_server-IsRegistry :
      (rs : List Request) (c : C) → IsRegistry (serve ctl rs (new_server ctl c))
  serve-new_server-IsRegistry rs c =
      serve-IsRegistry rs (new_server ctl c)
        (unfold new_server in (record { valid = tt; unique = tt }))
