-- ===== src/Clamp/Interface.antt =====
-- `cClampInterface` of zenux-service-common/lib/scpi-interfaces/clampinterface.cpp: the clamps that are
-- plugged in, their catalog, and the command that writes the adjustment data of all.
use Prim.Native.Nat.{bit_xor}
use zenux_services.Prelude.{
  ℕ, ◌+◌, ◌-◌, ◌/◌, ◌%◌, ◌^◌, bit_and, bit_or, Bool, true, false, ◌&&◌, Option, none, some, List,
  [], ◌∷◌, ◌++◌, if◌then◌else◌, length, ltb,
}
use zenux_services.Prelude.Int.{ℤ, pos, negsuc}
use zenux_services.Prelude.Text.{Text, lookup, insert, remove, keys, join, insert_text, remove_text}
use zenux_services.Settings.{ChannelSettings, has_bit, bmask}
use zenux_services.Scpi.{ScpiLib, Answer, ack, nak, erraut, errexec, value}

unfoldable pub is_empty_text : Text → Bool
is_empty_text [] = true
is_empty_text (c ∷ s) = false

-- `cClamp`: the fields that the interface reads. `memory` is the multiplexer channel of its EEPROM.
pub record Clamp : Type 0 where
  pub serial : Text
  pub channel_name_secondary : Text
  pub memory : ℤ

-- `m_nClampStatus` has 16 bits; the list of channels is what the notifier holds.
pub record ClampInterface : Type 0 where
  pub clamp_status : ℕ
  pub clamp_hash : List (Text × Clamp)
  pub clamp_secondary_set : List Text
  pub clamp_channel_list : Text

-- The devices as a read of the plugs finds them: whether an EEPROM answers on a multiplexer channel, and
-- the clamp that the constructor of `cClamp` makes from the data of the EEPROM, with the number of the
-- secondary channel's controller.
pub record ClampIo : Type 0 where
  pub is_memory_plugged : ℤ → Bool
  pub new_clamp : ChannelSettings → ℕ → Clamp

unfoldable pub generate_and_notify_clamp_channel_list : ClampInterface → ClampInterface
generate_and_notify_clamp_channel_list h = record h {
  clamp_channel_list = join b';' (keys h.clamp_hash ++ h.clamp_secondary_set) ++ b';' ∷ [];
}

-- `addClamp`. The number of the secondary channel is handed on as a `quint8`.
unfoldable pub add_clamp : ClampIo → ℕ → ChannelSettings → ℕ → ClampInterface → ClampInterface
add_clamp io channel_count s plug_bit_no h =
    let phase_count = channel_count / 2 in
    let clamp = io.new_clamp s ((s.ctrl_channel + 256 - phase_count) % 256) in
    let secondary = clamp.channel_name_secondary in
    generate_and_notify_clamp_channel_list (record h {
      clamp_status = bit_or h.clamp_status (bmask plug_bit_no);
      clamp_hash = insert s.name_mx clamp h.clamp_hash;
      clamp_secondary_set =
          if is_empty_text secondary
          then h.clamp_secondary_set
          else insert_text secondary h.clamp_secondary_set;
    })

unfoldable pub try_add_clamp : ClampIo → ℕ → ChannelSettings → ℕ → ClampInterface → ClampInterface
try_add_clamp io channel_count s plug_bit_no h =
    if io.is_memory_plugged s.mux_channel_no then add_clamp io channel_count s plug_bit_no h else h

-- What is done with the clamp that `take` has found.
unfoldable pub take_clamp : Text → ℕ → Option Clamp → ClampInterface → ClampInterface
take_clamp channel_name mask none h = h
take_clamp channel_name mask (some clamp) h =
    let secondary = clamp.channel_name_secondary in
    generate_and_notify_clamp_channel_list (record h {
      clamp_status = bit_and h.clamp_status (2 ^ 16 - 1 - mask);
      clamp_hash = remove channel_name h.clamp_hash;
      clamp_secondary_set =
          if is_empty_text secondary
          then h.clamp_secondary_set
          else remove_text secondary h.clamp_secondary_set;
    })

unfoldable pub handle_clamp_disconnected : Text → ℕ → ClampInterface → ClampInterface
handle_clamp_disconnected channel_name mask h =
    take_clamp channel_name mask (lookup channel_name h.clamp_hash) h

-- `channel_of` is `getChannelByCtrlChannelNo` of the sense interface.
module _ (channel_of : ℕ → Text) (io : ClampIo) (channel_count : ℕ) where
  unfoldable pub actualize_plug : ℕ → Text → ChannelSettings → ℤ → ClampInterface → ClampInterface
  actualize_plug cl_change channel_name s (negsuc n) h = h
  actualize_plug cl_change channel_name s (pos plug_bit_no) h =
      let removed = handle_clamp_disconnected channel_name (bmask plug_bit_no) h in
      let added = try_add_clamp io channel_count s plug_bit_no h in
      if has_bit cl_change plug_bit_no
      then if has_bit h.clamp_status plug_bit_no then removed else added
      else h

  -- One round of the loop.
  unfoldable pub actualize_channel : ℕ → ChannelSettings → ClampInterface → ClampInterface
  actualize_channel cl_change s h =
      let channel_name = channel_of s.ctrl_channel in
      if is_empty_text channel_name
      then h
      else actualize_plug cl_change channel_name s s.plugged_bit h

  unfoldable pub actualize_channels : ℕ → List ChannelSettings → ClampInterface → ClampInterface
  actualize_channels cl_change [] h = h
  actualize_channels cl_change (s ∷ ss) h =
      actualize_channels cl_change ss (actualize_channel cl_change s h)

-- The changes are computed once, before the loop.
unfoldable pub actualize_clamp_status :
    (ℕ → Text) → ClampIo → List ChannelSettings → ℕ → ClampInterface → ClampInterface
actualize_clamp_status channel_of io settings dev_connected_mask h =
    actualize_channels channel_of io (length settings) (bit_xor dev_connected_mask h.clamp_status)
      settings h

unfoldable pub read_clamp_channel_catalog :
    ScpiLib → Text → ClampInterface → ClampInterface × Answer
read_clamp_channel_catalog lib cmd h =
    let h' = generate_and_notify_clamp_channel_list h in
    if lib.is_query cmd then (h', value h'.clamp_channel_list) else (h, nak)

-- What writing the adjustment data needs: `exportClampAdjData` of a clamp and the permission, `none` if it
-- cannot be read. `now` is the time that all clamps get.
pub record ClampWriter (World : Type 0) : Type 0 where
  pub export_clamp_adj_data : Clamp → World → World × Bool
  pub has_permission : World → Option Bool

module _ {World : Type 0} (writer : ClampWriter World) where
  -- `done = done && clamp->exportClampAdjData(now)` over the clamps.
  unfoldable pub export_all : List (Text × Clamp) → World → Bool → World × Bool
  export_all [] w done = (w, done)
  export_all ((name, clamp) ∷ rest) w false = export_all rest w false
  export_all ((name, clamp) ∷ rest) w true =
      let (w', written) = writer.export_clamp_adj_data clamp w in export_all rest w' written

  unfoldable pub write_permitted : List (Text × Clamp) → Option Bool → World → World × Answer
  write_permitted clamps none w = (w, errexec)
  write_permitted clamps (some false) w = (w, erraut)
  write_permitted clamps (some true) w =
      let (w', done) = export_all clamps w true in (w', if done then ack else errexec)

  unfoldable pub write_all_clamps : ScpiLib → Text → ClampInterface → World → World × Answer
  write_all_clamps lib cmd h w =
      if lib.is_command cmd 1 && is_empty_text (lib.get_param cmd 0)
      then if ltb 0 (length h.clamp_hash)
        then write_permitted h.clamp_hash (writer.has_permission w) w
        else (w, ack)
      else (w, nak)
