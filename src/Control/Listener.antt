-- ===== src/Control/Listener.antt =====
-- internal/control/server.go: how NewUnixServer takes possession of its socket path, and Run. The calls
-- of the packages os, net, net/http and os/user are an interface; what NewUnixServer does with the
-- routes is in Control/Handlers.
pub mod Files
pub mod Survival
pub mod Count
pub mod Arguments
mod Tests
use mathlib.Core.List.{reverse}
use netns_mcast_relay.Base.{
  ℕ, ◌+◌, ◌-◌, ◌*◌, ◌^◌, Bool, true, false, not, ◌&&◌, ◌||◌, Option, none, some, List, [], ◌∷◌,
  Text, ◌==◌, nat_eq, text_eq, ltb, leb, if◌then◌else◌, codes, ℤ, pos, negsuc, Result, done, fails,
  ◌>>=◌, ◌>>◌, require,
}
use netns_mcast_relay.Paths.{trim_space, is_abs, clean}
use netns_mcast_relay.Config.{is_positive}

-- os.Stat: os.ErrNotExist, another error, or whether the mode has os.ModeSocket.
pub data Stat : Type 0 where
  not_exist : Stat
  stat_failed : Stat
  found : Bool → Stat

-- Dialing the socket: a connection, ECONNREFUSED or ENOENT, or another error.
pub data Dial : Type 0 where
  connected : Dial
  nobody : Dial
  dial_failed : Dial

pub data ServeError : Type 0 where
  server_closed : ServeError
  serve_failed : ServeError

-- errors.Is(err, http.ErrServerClosed)
abbrev pub is_closed : ServeError → Bool
is_closed server_closed = true
is_closed serve_failed = false

-- The system's calls over its state `W` and listeners `L`; `true` is a nil error. `close_probe` closes
-- the connection that dialing made.
pub record Host (W L : Type 0) : Type 0 where
  -- the Gid of the group, as the text that user.LookupGroup gives
  pub lookup_group : Text → Option Text
  pub stat : Text → W → Stat
  pub dial : Text → W → Dial × W
  pub close_probe : W → W
  pub mkdir_all : Text → W → Bool × W
  pub remove : Text → W → Bool × W
  pub listen : Text → W → Option L × W
  pub chown : Text → ℕ → W → Bool × W
  pub chmod : Text → ℕ → W → Bool × W
  pub close_listener : L → W → W
  -- Serve until it fails, or until Shutdown has been called
  pub serve : L → W → ServeError × W

pub data ServerError : Type 0 where
  path_empty path_not_absolute timeout_not_positive invalid_mode : ServerError
  group_unresolved invalid_gid : ServerError
  mkdir_failed not_a_socket probe_failed already_in_use remove_failed path_stat_failed : ServerError
  listen_failed chown_failed chmod_failed : ServerError

-- The tests on the arguments. `socketMode.Perm() != socketMode` is a bit beyond 0o777.
unfoldable pub check_arguments : Text → ℤ → ℕ → Result ServerError (Unit {0})
check_arguments path timeout mode = do
  require (not (path == [])) path_empty
  require (is_abs path) path_not_absolute
  require (is_positive timeout) timeout_not_positive
  require (not (mode == 0 || ltb 511 mode)) invalid_mode

-- strconv.Atoi on decimal digits after a sign, in 64 bits.
abbrev pub is_decimal : ℕ → Bool
is_decimal c = leb b'0' c && leb c b'9'

unfoldable pub decimal : ℕ → Text → Option ℕ
decimal n [] = some n
decimal n (c ∷ s) =
    let m = n * 10 + (c - b'0') in
    let rest = decimal m s in if not (is_decimal c) || ltb (2 ^ 63) m then none else rest

abbrev pub digits_value : Text → Option ℕ
digits_value [] = none
digits_value (c ∷ s) = decimal 0 (c ∷ s)

abbrev pub positive : Option ℕ → Option ℤ
positive none = none
positive (some n) = if n == 2 ^ 63 then none else some (pos n)

abbrev pub negative : Option ℕ → Option ℤ
negative none = none
negative (some n) = if n == 0 then some (pos 0) else some (negsuc (n - 1))

unfoldable pub atoi : Text → Option ℤ
unfolding decimal
atoi [] = none
atoi (c ∷ s) =
    if c == b'-'
    then negative (digits_value s)
    else if c == b'+'
    then positive (digits_value s)
    else positive (digits_value (c ∷ s))

-- `err != nil || gid < 0`
abbrev pub gid_result : Option ℤ → Result ServerError (Option ℕ)
gid_result none = fails invalid_gid
gid_result (some (negsuc n)) = fails invalid_gid
gid_result (some (pos n)) = done (some n)

abbrev pub group_result : Option Text → Result ServerError (Option ℕ)
group_result none = fails group_unresolved
group_result (some gid) = gid_result (atoi gid)

-- filepath.Dir: the path up to its last slash, cleaned.
abbrev pub from_slash : Text → Text
from_slash [] = []
from_slash (c ∷ s) = if c == b'/' then c ∷ s else from_slash s

unfoldable pub dir : Text → Text
dir path = clean (reverse (from_slash (reverse path)))

module _ {W L : Type 0} (host : Host W L) where
  -- resolveSocketGroup; the result -1 is `none`.
  unfoldable pub resolve_socket_group : Text → Result ServerError (Option ℕ)
  resolve_socket_group group_name =
      if trim_space group_name == []
      then done none
      else group_result (host.lookup_group (trim_space group_name))

  -- isActiveUnixSocket
  abbrev pub probe_result : Dial × W → Result ServerError Bool × W
  probe_result (connected, w) = (done true, host.close_probe w)
  probe_result (nobody, w) = (done false, w)
  probe_result (dial_failed, w) = (fails probe_failed, w)

  unfoldable pub is_active_unix_socket : Text → W → Result ServerError Bool × W
  is_active_unix_socket path w = probe_result (host.dial path w)

  abbrev pub remove_inactive :
      Text → Result ServerError Bool × W → Result ServerError (Unit {0}) × W
  remove_inactive path (fails e, w) = (fails e, w)
  remove_inactive path (done true, w) = (fails already_in_use, w)
  remove_inactive path (done false, w) =
      let (removed, w') = host.remove path w in (require removed remove_failed, w')

  abbrev pub after_stat : Text → Stat → W → Result ServerError (Unit {0}) × W
  after_stat path not_exist w = (done tt, w)
  after_stat path stat_failed w = (fails path_stat_failed, w)
  after_stat path (found false) w = (fails not_a_socket, w)
  after_stat path (found true) w = remove_inactive path (is_active_unix_socket path w)

  unfoldable pub remove_stale_socket : Text → W → Result ServerError (Unit {0}) × W
  unfolding is_active_unix_socket
  remove_stale_socket path w = after_stat path (host.stat path w) w

  -- The cleanup of an error once the listener is open.
  abbrev pub give_up : Text → L → W → W
  give_up path l w = (host.remove path (host.close_listener l w)).1

  -- `if socketGID >= 0`
  abbrev pub set_group : Text → Option ℕ → W → Bool × W
  set_group path none w = (true, w)
  set_group path (some gid) w = host.chown path gid w

  abbrev pub configure : Text → ℕ → Option ℕ → L → W → Result ServerError L × W
  configure path mode gid l w =
      let (owned, w1) = set_group path gid w in
      let (moded, w2) = host.chmod path mode w1 in
      if not owned
      then (fails chown_failed, give_up path l w1)
      else if not moded
      then (fails chmod_failed, give_up path l w2)
      else (done l, w2)

  abbrev pub bind :
      Text → ℕ → Option ℕ → Result ServerError (Unit {0}) × W → Result ServerError L × W
  bind path mode gid (fails e, w) = (fails e, w)
  bind path mode gid (done u, w) =
      let (opened, w') = host.listen path w in
      elim opened [ none ↦ (fails listen_failed, w') | some l ↦ configure path mode gid l w' ]

  abbrev pub prepare : Text → ℕ → Result ServerError (Option ℕ) → W → Result ServerError L × W
  prepare path mode (fails e) w = (fails e, w)
  prepare path mode (done gid) w =
      let (made, w') = host.mkdir_all (dir path) w in
      if made then bind path mode gid (remove_stale_socket path w') else (fails mkdir_failed, w')

  -- NewUnixServer, up to the routes.
  unfoldable pub new_unix_server : Text → ℤ → ℕ → Text → W → Result ServerError L × W
  unfolding check_arguments resolve_socket_group remove_stale_socket
  new_unix_server path timeout mode group w =
      prepare path mode (check_arguments path timeout mode >> resolve_socket_group group) w

  -- Run: whether its error is nil.
  unfoldable pub run : Text → L → W → Bool × W
  run path l w = let (e, w') = host.serve l w in (is_closed e, (host.remove path w').1)
