-- ===== src/Hotplug/Container.antt =====
-- `HotPluggableControllerContainer` of
-- zenux-service-common/lib/micro-controller-io/hotpluggablecontrollercontainer.cpp. A bootloader stopper
-- is a timer: its signal is the event that `on_bootloader_stop_assumed` handles.
use zenux_services.Prelude.{
  ℕ, ◌+◌, Bool, true, false, ◌&&◌, ◌||◌, Option, none, some, List, [], ◌∷◌, if◌then◌else◌,
}
use zenux_services.Prelude.Text.{Text, insert}
use zenux_services.Prelude.Int.{ℤ, pos, negsuc}
use zenux_services.Prelude.Maps.{
  find_key, put_key, remove_key, is_some, contains_int, insert_int, remove_int,
}
use zenux_services.Settings.{ChannelSettings, has_bit}

-- `PendingChannelInfo`.
pub record PendingChannelInfo : Type 0 where
  pub pending_name : Text
  pub mux_channel : ℤ

-- `NamedHotControllers`; the pair of I2C objects is given by the multiplexer channel that both address.
pub record NamedHotControllers : Type 0 where
  pub channel_m_name : Text
  pub controllers : ℤ

-- `signals` counts the emissions of `sigControllersChanged`.
pub record Hotplug : Type 0 where
  pub controllers : List (ℕ × NamedHotControllers)
  pub pending : List (ℕ × PendingChannelInfo)
  pub without : List ℕ
  pub signals : ℕ

-- What the I2C controllers on a multiplexer channel answer: `none` is a result other than `cmddone`, and
-- the second function is whether the factory has an EMOB controller.
pub record EmobIo : Type 0 where
  pub read_ctrl_version : ℤ → Option Text
  pub get_emob_controller : ℤ → Bool
  pub read_emob_instrument_sub_type : ℤ → Option Text

unfoldable pub is_channel_known : ℕ → Hotplug → Bool
is_channel_known ctrl_channel h =
    is_some (find_key ctrl_channel h.pending)
    || is_some (find_key ctrl_channel h.controllers)
    || contains_int ctrl_channel h.without

unfoldable pub start_adding_controller : ChannelSettings → Hotplug → Hotplug
start_adding_controller s h =
    let info : PendingChannelInfo = record {
      pending_name = s.name_mx;
      mux_channel = s.mux_channel_no;
    } in
    record h { pending = put_key s.ctrl_channel info h.pending }

-- The branch of a channel whose plug is out.
unfoldable pub remove_channel : ℕ → Hotplug → Hotplug
remove_channel ctrl_channel h =
    let found = is_some (find_key ctrl_channel h.controllers) in
    record h {
      without =
          if contains_int ctrl_channel h.without
          then remove_int ctrl_channel h.without
          else h.without;
      pending =
          if is_some (find_key ctrl_channel h.pending)
          then remove_key ctrl_channel h.pending
          else h.pending;
      controllers = if found then remove_key ctrl_channel h.controllers else h.controllers;
      signals = if found then h.signals + 1 else h.signals;
    }

-- One round of the loop over the channels.
unfoldable pub actualize_plugged : ℕ → ChannelSettings → ℤ → Hotplug → Hotplug
actualize_plugged mask s (negsuc n) h = h
actualize_plugged mask s (pos plug_bit_no) h =
    if has_bit mask plug_bit_no
    then if is_channel_known s.ctrl_channel h then h else start_adding_controller s h
    else remove_channel s.ctrl_channel h

unfoldable pub start_actualize_emob_controllers : ℕ → List ChannelSettings → Hotplug → Hotplug
start_actualize_emob_controllers mask [] h = h
start_actualize_emob_controllers mask (s ∷ ss) h =
    start_actualize_emob_controllers mask ss (actualize_plugged mask s s.plugged_bit h)

-- `result == cmddone && !text.isEmpty()`.
unfoldable pub has_answer : Option Text → Bool
has_answer none = false
has_answer (some []) = false
has_answer (some (c ∷ s)) = true

-- The handler from the point where the entry has been taken out.
unfoldable pub detect : EmobIo → ℕ → PendingChannelInfo → Hotplug → Hotplug
detect io ctrl_channel info h =
    let mux = info.mux_channel in
    let added = record h {
      controllers =
          put_key ctrl_channel (record { channel_m_name = info.pending_name; controllers = mux })
            h.controllers;
      signals = h.signals + 1;
    } in
    if has_answer (io.read_ctrl_version mux)
    then if io.get_emob_controller mux && has_answer (io.read_emob_instrument_sub_type mux)
      then added
      else h
    else record h { without = insert_int ctrl_channel h.without }

unfoldable pub stop_assumed : EmobIo → ℕ → Option PendingChannelInfo → Hotplug → Hotplug
stop_assumed io ctrl_channel none h = h
stop_assumed io ctrl_channel (some info) h =
    detect io ctrl_channel info (record h { pending = remove_key ctrl_channel h.pending })

unfoldable pub on_bootloader_stop_assumed : EmobIo → ℕ → Hotplug → Hotplug
on_bootloader_stop_assumed io ctrl_channel h =
    stop_assumed io ctrl_channel (find_key ctrl_channel h.pending) h

-- `HotControllerMap`: the controllers by the names of their channels.
unfoldable pub collect : List (ℕ × NamedHotControllers) → List (Text × ℤ) → List (Text × ℤ)
collect [] map = map
collect ((c, n) ∷ rest) map = collect rest (insert n.channel_m_name n.controllers map)

unfoldable pub get_current_controllers : Hotplug → List (Text × ℤ)
get_current_controllers h = collect h.controllers []
