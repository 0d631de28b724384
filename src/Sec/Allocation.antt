-- ===== src/Sec/Allocation.antt =====
-- The pool of error calculators: `SecMainAndChannelInterface` of
-- sec1000d/lib/scpi-interfaces/secmainandchannelinterface.cpp.
use zenux_services.Prelude.{
  ℕ, zero, suc, ◌+◌, ◌-◌, Bool, true, false, ◌&&◌, ◌||◌, List, [], ◌∷◌, ◌++◌, none, some,
  if◌then◌else◌, ◌==◌, ltb, leb, length,
}
use zenux_services.Prelude.Int.{pos, negsuc}
use zenux_services.Prelude.Text.{Text, eq_text, split, lookup, insert}
use zenux_services.Scpi.{Answer, ack, nak, busy, value, ScpiLib, ProtoCmd}
use zenux_services.Sec.Device.{DeviceNode}
use zenux_services.Sec.Channel.{
  SecSettings, SecChannel, new_channel, get_name, is_free, set_client, stop_error_calculator,
  reset_interrupt, free,
}

-- `m_ClientECalcHash` holds the names a client got, each with a ";" behind it, and
-- `m_peerClientsHash` the clients of a connection.
pub record Pool (S : Type 0) : Type 0 where
  pub channels : List SecChannel
  pub client_hash : List (Text × Text)
  pub peer_hash : List (ℕ × List Text)
  pub state : S

-- What the search of `scpiSetChannels` has found: the positions, their names, and how many are
-- still wanted.
pub record Selection : Type 0 where
  pub positions : List ℕ
  pub names : Text
  pub left : ℕ

abbrev pub add_found : ℕ → SecChannel → Selection → Selection
add_found i c sel = record sel {
  positions = i ∷ sel.positions;
  names = get_name c ++ b';' ∷ sel.names;
}

-- The loop from position `i` on, while `n` (not 0) channels are wanted.
unfoldable pub select : ℕ → ℕ → List SecChannel → Selection
select i n [] = record { positions = []; names = []; left = n }
select i n (c ∷ cs) =
    let last = add_found i c (record { positions = []; names = []; left = 0 }) in
    let found = add_found i c (select (i + 1) (n - 1) cs) in
    let skipped = select (i + 1) n cs in
    if is_free c then if n == 1 then last else found else skipped

-- `set(id)` on the channel at a position.
unfoldable pub set_at : Text → ℕ → List SecChannel → List SecChannel
set_at id i [] = []
set_at id zero (c ∷ cs) = (set_client id c).0 ∷ cs
set_at id (suc i) (c ∷ cs) = c ∷ set_at id i cs

unfoldable pub set_all : Text → List ℕ → List SecChannel → List SecChannel
set_all id [] cs = cs
set_all id (i ∷ is) cs = set_all id is (set_at id i cs)

-- The clients of a connection; none are known before the first.
unfoldable pub peer_clients : ℕ → List (ℕ × List Text) → List Text
peer_clients peer [] = []
peer_clients peer ((q, ids) ∷ m) = if q == peer then ids else peer_clients peer m

unfoldable pub contains : Text → List Text → Bool
contains id [] = false
contains id (x ∷ xs) = eq_text x id || contains id xs

unfoldable pub set_peer : ℕ → List Text → List (ℕ × List Text) → List (ℕ × List Text)
set_peer peer ids [] = (peer, ids) ∷ []
set_peer peer ids ((q, old) ∷ m) =
    if q == peer then (q, ids) ∷ m else (q, old) ∷ set_peer peer ids m

unfoldable pub add_peer_client : ℕ → Text → List (ℕ × List Text) → List (ℕ × List Text)
add_peer_client peer id m =
    let ids = peer_clients peer m in
    set_peer peer (if contains id ids then ids else ids ++ id ∷ []) m

module _ (dev : DeviceNode) where
  -- The channels of one name are freed, one after the other.
  unfoldable pub free_named : Text → List SecChannel → dev.State → List SecChannel × dev.State
  free_named name [] s = ([], s)
  free_named name (c ∷ cs) s =
      let hit = free dev c s in
      let (c', s') = if eq_text (get_name c) name then hit else (c, s) in
      let (cs', s'') = free_named name cs s' in (c' ∷ cs', s'')

  unfoldable pub free_names : List Text → List SecChannel → dev.State → List SecChannel × dev.State
  free_names [] cs s = (cs, s)
  free_names (name ∷ names) cs s = let (cs', s') = free_named name cs s in free_names names cs' s'

  -- The entry of the hash stays.
  unfoldable pub free_channels_from_a_client : Text → Pool dev.State → Pool dev.State × Bool
  free_channels_from_a_client id pool = elim (lookup id pool.client_hash) [
    | none ↦ (pool, false)
    | some names ↦
        let (cs, s) = free_names (split b';' names) pool.channels pool.state in
        (record pool { channels = cs; state = s }, true)
  ]

  -- The loop over the clients of a connection ends at the first that fails.
  unfoldable pub free_clients : List Text → Pool dev.State → Pool dev.State × Bool
  free_clients [] pool = (pool, true)
  free_clients (id ∷ ids) pool =
      let (pool', done) = free_channels_from_a_client id pool in
      let rest = free_clients ids pool' in if done then rest else (pool', false)

  unfoldable pub free_channels_for_this_peer : ℕ → Pool dev.State → Pool dev.State × Bool
  free_channels_for_this_peer peer pool = free_clients (peer_clients peer pool.peer_hash) pool

  unfoldable pub scpi_free_channels : ScpiLib → ProtoCmd → Pool dev.State → Pool dev.State × Answer
  scpi_free_channels lib p pool =
      let (pool', done) = free_channels_from_a_client p.client_id pool in
      if lib.is_command p.input 0 then (pool', if done then ack else nak) else (pool, nak)

  -- `n` channels are wanted, 1 to all of them.
  unfoldable pub allocate : ℕ → ProtoCmd → Pool dev.State → Pool dev.State × Answer
  allocate n p pool =
      let sel = select 0 n pool.channels in
      if sel.left == 0
      then (
        record pool {
          channels = set_all p.client_id sel.positions pool.channels;
          client_hash = insert p.client_id sel.names pool.client_hash;
          peer_hash = add_peer_client p.peer p.client_id pool.peer_hash;
        },
        value sel.names,
      )
      else (pool, busy)

  unfoldable pub scpi_set_channels : ScpiLib → ProtoCmd → Pool dev.State → Pool dev.State × Answer
  scpi_set_channels lib p pool =
      if lib.is_command p.input 1
      then elim (lib.to_int (lib.get_param p.input 0)) [
        | none ↦ (pool, nak)
        | some (negsuc k) ↦ (pool, nak)
        | some (pos n) ↦
            if ltb 0 n && leb n (length pool.channels) then allocate n p pool else (pool, nak)
      ]
      else (pool, nak)

  -- The constructor: each channel is stopped and its interrupts are cleared.
  unfoldable pub init_channels : SecSettings → ℕ → ℕ → dev.State → List SecChannel × dev.State
  init_channels settings zero nr s = ([], s)
  init_channels settings (suc k) nr s =
      let c = new_channel settings nr in
      let (c', s') = reset_interrupt dev 0xF c (stop_error_calculator dev c s) in
      let (cs, s'') = init_channels settings k (nr + 1) s' in (c' ∷ cs, s'')

  unfoldable pub init_pool : SecSettings → dev.State → Pool dev.State
  init_pool settings s =
      let (cs, s') = init_channels settings settings.number 0 s in
      record { channels = cs; client_hash = []; peer_hash = []; state = s' }

  unfoldable pub channel_catalog : List SecChannel → Text
  channel_catalog [] = []
  channel_catalog (c ∷ cs) = get_name c ++ b';' ∷ channel_catalog cs

-- `getEcUnitsOccupied` of sec1000d/lib/sec1000d.cpp.
unfoldable pub ec_units_occupied : List SecChannel → ℕ
ec_units_occupied [] = 0
ec_units_occupied (c ∷ cs) = (if is_free c then 0 else 1) + ec_units_occupied cs
