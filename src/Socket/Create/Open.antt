-- ===== src/Socket/Create/Open.antt =====
-- internal/socket/multicast.go and internal/netns/netns.go: the file descriptors that are open, and how
-- the calls of the system change them.
use netns_mcast_relay.Base.{
  ◌≡◌, ◌≢◌, refl, Bool-cases, inl, inr, Option, none, some, List, [], ◌∷◌, Eq, beq_self,
  if◌then◌else◌,
}
use netns_mcast_relay.Net.{UdpAddr}
use netns_mcast_relay.Netns.Do.{Namespaces}
use netns_mcast_relay.Socket.Create.{Interface, Kernel}

-- A descriptor that the program holds.
pub data Fd (U R N : Type 0) : Type 0 where
  conn_fd : U → Fd U R N
  raw_fd : R → Fd U R N
  handle_fd : N → Fd U R N

-- Without the first entry that is equal.
unfoldable pub erase : {A : Type 0} → Eq A → A → List A → List A
erase e x [] = []
erase e x (y ∷ ys) = let rest = erase e x ys in if e.beq x y then ys else y ∷ rest

pub erase_here : {A : Type 0} (e : Eq A) (x : A) (ys : List A) → erase e x (x ∷ ys) ≡ ys
unfolding erase
erase_here e x ys = rw (beq_self e x) refl

pub erase_past :
    {A : Type 0} (e : Eq A) (x y : A) (ys : List A) → x ≢ y → erase e x (y ∷ ys) ≡ y ∷ erase e x ys
unfolding erase
erase_past e x y ys ne = elim (Bool-cases (e.beq x y)) [
  | inl same ↦ absurd (ne ((e.beq_iff x y).0 same))
  | inr other ↦ rw other refl
]

abbrev pub opened_on : {A B : Type 0} → (A → B) → Option A → List B → List B
opened_on f none fds = fds
opened_on f (some a) fds = f a ∷ fds

-- What the code relies on: a connection or a saved handle is one descriptor. Closing one that is open
-- frees it, closing one that is not open frees none, and no other call opens or closes any.
pub record Descriptors {W U R N : Type 0} (k : Kernel W U R) (ns : Namespaces W N) : Type 0 where
  pub fd_eq : Eq (Fd U R N)
  pub fds : W → List (Fd U R N)
  pub at_interfaces : (w : W) → fds (k.interfaces w).1 ≡ fds w
  pub at_listen_multicast_udp :
      (i : Interface) (g : UdpAddr) (w : W)
      → fds (k.listen_multicast_udp i g w).1
        ≡ opened_on conn_fd (k.listen_multicast_udp i g w).0 (fds w)
  pub at_join_group :
      (c : U) (i : Interface) (g : UdpAddr) (w : W) → fds (k.join_group c i g w).1 ≡ fds w
  pub at_enable_loopback : (c : U) (w : W) → fds (k.enable_loopback c w).1 ≡ fds w
  pub at_set_control_message : (c : U) (w : W) → fds (k.set_control_message c w).1 ≡ fds w
  pub at_listen_ip : (w : W) → fds (k.listen_ip w).1 ≡ opened_on raw_fd (k.listen_ip w).0 (fds w)
  pub at_new_raw_conn : (r : R) (w : W) → fds (k.new_raw_conn r w).1 ≡ fds w
  pub at_set_multicast_interface :
      (r : R) (i : Interface) (w : W) → fds (k.set_multicast_interface r i w).1 ≡ fds w
  pub at_set_multicast_loopback : (r : R) (w : W) → fds (k.set_multicast_loopback r w).1 ≡ fds w
  pub at_set_read_buffer : (c : U) (w : W) → fds (k.set_read_buffer c w).1 ≡ fds w
  pub at_set_write_buffer : (c : U) (w : W) → fds (k.set_write_buffer c w).1 ≡ fds w
  pub at_close_conn : (c : U) (w : W) → fds (k.close_conn c w) ≡ erase fd_eq (conn_fd c) (fds w)
  pub at_close_raw : (r : R) (w : W) → fds (k.close_raw r w) ≡ erase fd_eq (raw_fd r) (fds w)
  pub at_get_current :
      (w : W) → fds (ns.get_current w).1 ≡ opened_on handle_fd (ns.get_current w).0 (fds w)
  pub at_set_namespace : (n : N) (w : W) → fds (ns.set_namespace n w).1 ≡ fds w
  pub at_close_handle :
      (n : N) (w : W) → fds (ns.close_handle n w).1 ≡ erase fd_eq (handle_fd n) (fds w)
