-- ===== src/Control/Listener/Files.antt =====
-- The files and listeners that NewUnixServer works on, as it sees them through the system's calls.
use netns_mcast_relay.Base.{ℕ, ◌+◌, ◌≤◌, ◌≡◌, ◌≢◌, ◌⊎◌, true, Option, none, some, Text, text_eq}
use netns_mcast_relay.Control.Listener.{not_exist, found, nobody, Host}

-- What stands at a path; a socket is alive if somebody listens on it.
pub data Entry : Type 0 where
  absent plain dead alive : Entry

abbrev pub opened {ℓ} : {A : Type ℓ} → Option A → ℕ
opened none = 0
opened (some a) = 1

-- What the code relies on: what Stat and Dial say of an entry, that a call changes no entry but that of
-- its own path, and that listening opens one listener and closing it closes one. Making directories
-- changes no entry that is there.
pub record Files {W L : Type 0} (host : Host W L) : Type 0 where
  pub entry : W → Text → Entry
  pub listeners : W → ℕ
  pub path_of : L → Text
  pub stat_absent : (p : Text) (w : W) → host.stat p w ≡ not_exist → entry w p ≡ absent
  pub stat_socket :
      (p : Text) (w : W) → host.stat p w ≡ found true → (entry w p ≡ dead) ⊎ (entry w p ≡ alive)
  pub dial_nobody : (p : Text) (w : W) → (host.dial p w).0 ≡ nobody → entry w p ≢ alive
  pub entry_dial : (p q : Text) (w : W) → entry (host.dial p w).1 q ≡ entry w q
  pub entry_close_probe : (q : Text) (w : W) → entry (host.close_probe w) q ≡ entry w q
  pub entry_mkdir_all :
      (p q : Text) (w : W) → entry w q ≢ absent → entry (host.mkdir_all p w).1 q ≡ entry w q
  pub entry_remove : (p q : Text) (w : W) → p ≢ q → entry (host.remove p w).1 q ≡ entry w q
  pub entry_listen : (p q : Text) (w : W) → p ≢ q → entry (host.listen p w).1 q ≡ entry w q
  pub path_listen : (p : Text) (w : W) (l : L) → (host.listen p w).0 ≡ some l → path_of l ≡ p
  pub entry_chown : (p q : Text) (g : ℕ) (w : W) → entry (host.chown p g w).1 q ≡ entry w q
  pub entry_chmod : (p q : Text) (m : ℕ) (w : W) → entry (host.chmod p m w).1 q ≡ entry w q
  pub entry_close :
      (l : L) (q : Text) (w : W) → path_of l ≢ q → entry (host.close_listener l w) q ≡ entry w q
  pub listeners_dial : (p : Text) (w : W) → listeners (host.dial p w).1 ≡ listeners w
  pub listeners_close_probe : (w : W) → listeners (host.close_probe w) ≡ listeners w
  pub listeners_mkdir_all : (p : Text) (w : W) → listeners (host.mkdir_all p w).1 ≡ listeners w
  pub listeners_remove : (p : Text) (w : W) → listeners (host.remove p w).1 ≡ listeners w
  pub listeners_listen :
      (p : Text) (w : W) → listeners (host.listen p w).1 ≡ listeners w + opened (host.listen p w).0
  pub listeners_chown : (p : Text) (g : ℕ) (w : W) → listeners (host.chown p g w).1 ≡ listeners w
  pub listeners_chmod : (p : Text) (m : ℕ) (w : W) → listeners (host.chmod p m w).1 ≡ listeners w
  pub listeners_close :
      (l : L) (w : W) → 1 ≤ listeners w → listeners (host.close_listener l w) + 1 ≡ listeners w
