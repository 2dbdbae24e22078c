-- ===== src/Control/Handlers/Laws.antt =====
-- internal/control/server.go: the handlers on their branches.
use netns_mcast_relay.Base.{Bool, Option, ap, ◌∙◌, insert, Option-cases}
use netns_mcast_relay.Base.{
  ◌≡◌, ◌≢◌, refl, true, false, none, some, Text, text_eq, text_beq, text_beq_iff, lookup,
  lookup-insert, lookup-delete, if◌then◌else◌, arith, ◌⊎◌, inl, inr, Bool-cases, ◌≤◌, ◌<◌,
}
use netns_mcast_relay.Control.Accept.{
  is_container_id, canonicalize_namespace_path, Accepted, ok, err,
}
use netns_mcast_relay.Control.Handlers.{
  Body, Response, Checked, path_of, refuse, check_path, canonical_or_refuse, extracted_or_refuse,
  extract_namespace_path, Controller, Request, get_healthz, get_namespaces, post_add, post_remove,
  put_container, delete_container, Server, register, on_put, on_delete, handle,
}

canonical-refuse : (a : Accepted) (r : Response) → canonical_or_refuse a ≡ refuse r → r.status ≡ 400
canonical-refuse (err e) r h = ground arith
canonical-refuse (ok p) r h = ground arith

extracted-refuse :
    (a : Accepted) (r : Response)
    → extracted_or_refuse a ≡ refuse r
    → (r.status ≡ 400) ⊎ (r.status ≡ 413)
extracted-refuse (err e) r h = ground arith
extracted-refuse (ok p) r h = inl (canonical-refuse (canonicalize_namespace_path p) r h)

-- A body is refused with 400, or with 413 if it is too large.
check_path-refuse :
    (body : Body) (r : Response) → check_path body ≡ refuse r → (r.status ≡ 400) ⊎ (r.status ≡ 413)
unfolding check_path
check_path-refuse body r h = extracted-refuse (extract_namespace_path body) r h

pub Checked-cases :
    (c : Checked) → ((p : Text) × (c ≡ path_of p)) ⊎ ((r : Response) × (c ≡ refuse r))
Checked-cases (path_of p) = inl (p, refl)
Checked-cases (refuse r) = inr (r, refl)

module _ {C : Type 0} (ctl : Controller C) where
  -- A request that the client has to mend changes nothing: neither the registry nor the controller.
  pub client_error_unchanged :
      (r : Request) (s : Server ctl)
      → 400 ≤ (handle ctl r s).1.status
      → (handle ctl r s).1.status < 500
      → (handle ctl r s).0 ≡ s
  unfolding handle on_put on_delete
  client_error_unchanged get_healthz s h k = refl
  client_error_unchanged get_namespaces s h k = refl
  client_error_unchanged (post_add body) s h k = ground arith
  client_error_unchanged (post_remove body) s h k = ground arith
  client_error_unchanged (put_container id body) s h k = ground arith
  client_error_unchanged (delete_container id) s h k = ground arith

  -- The controller takes the addition, or refuses it.
  abbrev Added : Bool → Text → C → C → Type 0
  Added taken path c c' =
      ((ctl.add_namespace path c).0 ≡ taken) × (c' ≡ (ctl.add_namespace path c).1)

  -- What an accepted PUT has asked of the controller: the addition alone, if the container had no path
  -- or the same, or else the removal of the old path and then the addition.
  abbrev pub Moved : Text → Option Text → C → C → Type 0
  Moved path none c c' = Added true path c c'
  Moved path (some old) c c' =
      (old ≡ path → Added true path c c')
      × (old ≢ path
          → ((ctl.remove_namespace old c).0 ≡ true)
            × Added true path (ctl.remove_namespace old c).1 c')

  -- What a PUT has asked that the controller did not go along with: an addition that it refused, a
  -- removal of the old path that it refused, or a removal that it took and an addition that it refused.
  abbrev pub Stuck : Text → Option Text → C → C → Type 0
  Stuck path none c c' = Added false path c c'
  Stuck path (some old) c c' =
      (old ≡ path → Added false path c c')
      × (old ≢ path
          → (((ctl.remove_namespace old c).0 ≡ false) × (c' ≡ (ctl.remove_namespace old c).1))
            ⊎ (((ctl.remove_namespace old c).0 ≡ true)
                × Added false path (ctl.remove_namespace old c).1 c'))

  -- Registration is all or nothing.
  register-Added :
      (id path : Text) (s : Server ctl)
      → (((register ctl id path s).1.status ≡ 202)
          × Added true path s.controller (register ctl id path s).0.controller
          × ((register ctl id path s).0.container_namespaces
              ≡ insert id path s.container_namespaces))
        ⊎ (((register ctl id path s).1.status ≡ 500)
            × Added false path s.controller (register ctl id path s).0.controller
            × ((register ctl id path s).0.container_namespaces ≡ s.container_namespaces))
  register-Added id path s = elim (Bool-cases (ctl.add_namespace path s.controller).0) [
    | inl taken ↦ rw taken (inl (refl, (refl, refl), refl))
    | inr refused ↦ rw refused (inr (refl, (refl, refl), refl))
  ]

  -- What a PUT comes to, with the answer 202 or 500.
  abbrev Put : Text → Text → Server ctl → Server ctl × Response → Type 0
  Put id path s r =
      ((r.1.status ≡ 202)
        × Moved path (lookup id s.container_namespaces) s.controller r.0.controller
        × (r.0.container_namespaces ≡ insert id path s.container_namespaces))
      ⊎ ((r.1.status ≡ 500)
          × Stuck path (lookup id s.container_namespaces) s.controller r.0.controller
          × (r.0.container_namespaces ≡ s.container_namespaces))

  on_put-Put : (id path : Text) (s : Server ctl) → Put id path s (on_put ctl id path s)
  unfolding on_put
  on_put-Put id path s = elim (Option-cases (lookup id s.container_namespaces)) [
    | inl new ↦ rw new (register-Added id path s)
    | inr (old, had) ↦ elim (Bool-cases (text_beq old path)) [
      | inl b ↦
          let same = (text_beq_iff old path).0 b in
          elim (register-Added id path s) [
            | inl (status, added, kept) ↦
                rw (had, b) (inl (status, (λ e. added, λ ne. absurd (ne same)), kept))
            | inr (status, added, kept) ↦
                rw (had, b) (inr (status, (λ e. added, λ ne. absurd (ne same)), kept))
          ]
      | inr b ↦
          let ne : old ≢ path = λ e. cc ((text_beq_iff old path).1 e) in
          let c = (ctl.remove_namespace old s.controller).1 in
          elim (Bool-cases (ctl.remove_namespace old s.controller).0) [
            | inr refused ↦
                rw (had, b, refused)
                  (inr (refl, (λ e. absurd (ne e), λ other. inl (refl, refl)), refl))
            | inl taken ↦ elim (register-Added id path (record s { controller = c })) [
              | inl (status, added, kept) ↦
                  rw (had, b, taken)
                    (inl (status, (λ e. absurd (ne e), λ other. (refl, added)), kept))
              | inr (status, added, kept) ↦
                  rw (had, b, taken)
                    (inr (status, (λ e. absurd (ne e), λ other. inr (refl, added)), kept))
            ]
          ]
    ]
  ]

  handle-Put :
      (id : Text) (body : Body) (s : Server ctl)
      → let r = handle ctl (put_container id body) s in
        (r.1.status < 500 × (r.1.status ≢ 202))
        ⊎ ((path : Text) × (check_path body ≡ path_of path) × Put id path s r)
  unfolding handle
  handle-Put id body s = elim (Bool-cases (is_container_id id)) [
    | inl valid ↦ elim (Checked-cases (check_path body)) [
      | inl (p, e) ↦ rw (valid, e) (inr (p, refl, on_put-Put id p s))
      | inr (r, e) ↦
          rw (valid, e)
            (let refused = check_path-refuse body r e in
              inl (ground (arith, refused), ground (arith, refused)))
    ]
    | inr invalid ↦ rw invalid (inl (omega arith, omega arith))
  ]

  -- An accepted PUT registers the container under its path and leaves every other container alone; the
  -- controller has taken the addition, after the removal of the path that the container had if that was
  -- another one, and is as these calls leave it.
  pub put_accepted :
      (id : Text) (body : Body) (s : Server ctl) (other : Text)
      → (handle ctl (put_container id body) s).1.status ≡ 202
      → (path : Text) × (check_path body ≡ path_of path)
        × (lookup other (handle ctl (put_container id body) s).0.container_namespaces
            ≡ (if text_beq id other then some path else lookup other s.container_namespaces))
        × Moved path
            (lookup id s.container_namespaces)
            s.controller
            (handle ctl (put_container id body) s).0.controller
  put_accepted id body s other h = elim (handle-Put id body s) [
    | inl (small, ne) ↦ absurd (ne h)
    | inr (path, e, inl (status, moved, kept)) ↦ (
      path,
      e,
      ap (lookup other) kept ∙ lookup-insert id other path s.container_namespaces,
      moved,
    )
    | inr (path, e, inr (status, stuck, kept)) ↦ absurd (omega (arith, h, status))
  ]

  -- A PUT that is answered with 500 leaves the registry as it was, whatever it has asked of the
  -- controller: the addition was refused, or the removal of the path that the container had was, or, and
  -- then the registry still names a path whose removal was accepted, that removal was taken and the
  -- addition refused.
  pub put_half_done :
      (id : Text) (body : Body) (s : Server ctl)
      → (handle ctl (put_container id body) s).1.status ≡ 500
      → (path : Text) × (check_path body ≡ path_of path)
        × ((handle ctl (put_container id body) s).0.container_namespaces ≡ s.container_namespaces)
        × Stuck path
            (lookup id s.container_namespaces)
            s.controller
            (handle ctl (put_container id body) s).0.controller
  put_half_done id body s h = elim (handle-Put id body s) [
    | inl (small, ne) ↦ absurd (omega (arith, h, small))
    | inr (path, e, inl (status, moved, kept)) ↦ absurd (omega (arith, h, status))
    | inr (path, e, inr (status, stuck, kept)) ↦ (path, e, kept, stuck)
  ]

  -- A DELETE that was accepted leaves the container unregistered and every other container alone; a
  -- second one is accepted too and changes nothing.
  pub delete_accepted :
      (id : Text) (s : Server ctl) (other : Text)
      → (handle ctl (delete_container id) s).1.status ≡ 202
      → let s' = (handle ctl (delete_container id) s).0 in
        (lookup other s'.container_namespaces
          ≡ (if text_beq id other then none else lookup other s.container_namespaces))
        × ((handle ctl (delete_container id) s').0 ≡ s')
        × ((handle ctl (delete_container id) s').1.status ≡ 202)
  unfolding handle on_delete
  delete_accepted id s other h = (
    ground (arith, text_beq_iff id other, lookup-delete id other s.container_namespaces),
    ground (arith, text_beq_iff id id, lookup-delete id id s.container_namespaces),
    ground (arith, text_beq_iff id id, lookup-delete id id s.container_namespaces),
  )
