-- ===== src/Tests/Sec.antt =====
-- Runs of the error calculators on a register file and with a simple command parser.
use zenux_services.Prelude.{
  ℕ, ◌+◌, ◌*◌, ◌<◌, ◌≡◌, ◌≢◌, refl, bit_or, true, false, ◌&&◌, some, List, [], ◌∷◌, map, arith,
  ◌==◌, if◌then◌else◌, length, get_elem?,
}
use zenux_services.Prelude.Int.{pos}
use zenux_services.Prelude.Bits.{test_bit}
use zenux_services.Prelude.Text.{codes, eq_text, decimal, lookup}
use zenux_services.Scpi.{ack, value, ScpiLib, ProtoCmd}
use zenux_services.Notifier.{new_value}
use zenux_services.Sec.Device.{DeviceNode, IsRegisterFile}
use zenux_services.Sec.Channel.{
  SecSettings, SecChannel, cmd_set_mux, cmd_start, is_authorized, is_free, free, reg_address,
  reg_conf, reg_cmd, get_name,
}
use zenux_services.Sec.Commands.{execute}
use zenux_services.Sec.Authority.{Refused, execute-Refused}
use zenux_services.Sec.Effects.{SettingsFit, field_of, execute_config_lem, free_lem}
use zenux_services.Sec.Allocation.{Pool, allocate, free_channels_from_a_client}
use zenux_services.Sec.Select.{free_count, first_free, listed}
use zenux_services.Sec.Release.{release, numbers, free_channels_lem}
use zenux_services.Sec.RoundTrip.{Restored, free-allocate}
use zenux_services.Sec.Interrupts.{
  bytes_to_read, sec_int_handler, nibble, le_value, sec_int_handler_lem,
}

pub record Registers : Type 0 where
  pub position : ℕ
  pub words : ℕ → ℕ

abbrev registers : DeviceNode
registers = record {
  State = Registers;
  lseek = λ a s. record s { position = a };
  read = λ s. (s.words s.position, s);
  write = λ v s. record s { words = λ b. if b == s.position then v else s.words b };
}

abbrev registers-IsRegisterFile : IsRegisterFile registers
registers-IsRegisterFile = record {
  pos = λ s. s.position;
  word = λ s. s.words;
  pos-lseek = λ a s. refl;
  word-lseek = λ a b s. refl;
  value-read = λ s. refl;
  pos-read = λ s. refl;
  word-read = λ b s. refl;
  pos-write = λ v s. refl;
  word-write = λ v b s. refl;
}

abbrev start_state : Registers
start_state = record { position = 0; words = λ b. 0xABCD }

-- Every input is a command with parameters, and the parameter is the whole input.
abbrev simple_lib : ScpiLib
simple_lib = record {
  is_query = λ s. false;
  is_command = λ s n. true;
  get_param = λ s n. s;
  get_command_str = λ s. s;
  to_int = λ s. some (pos (length s));
  to_ulong = λ s. some (length s);
}

abbrev settings : SecSettings
settings = record {
  number = 3;
  base_address = 0x1000;
  irq_address = 0x2000;
  inputs = (codes "fi0", 5) ∷ (codes "fi1", 6) ∷ [];
}

settings-SettingsFit : SettingsFit settings
settings-SettingsFit = record {
  number_lt = omega arith;
  inputs_fit = (omega arith, (omega arith, tt));
}

abbrev alice : ProtoCmd
alice = record {
  peer = 1;
  with_output = true;
  client_id = codes "alice";
  type_query = false;
  type_cmd_p = true;
  input = codes "fi1";
}

abbrev channel_of_alice : SecChannel
channel_of_alice = record {
  nr = 1;
  address = 0x1040;
  is_set = true;
  client_id = codes "alice";
  int_reg = new_value 0;
}

abbrev free_channel : ℕ → SecChannel
free_channel n = record {
  nr = n;
  address = 0x1000 + 0x40 * n;
  is_set = false;
  client_id = [];
  int_reg = new_value 0;
}

-- Two channels are free, the one between them is taken.
abbrev pool : Pool Registers
pool = record {
  channels = free_channel 0 ∷ channel_of_alice ∷ free_channel 2 ∷ [];
  client_hash = [];
  peer_hash = [];
  state = start_state;
}

abbrev bob : ProtoCmd
bob = record alice { client_id = codes "bob"; peer = 2 }

free-allocate_example :
    let (pool', done) =
      free_channels_from_a_client registers bob.client_id (allocate registers 2 bob pool).0 in
    (done ≡ true) × Restored pool.channels pool'.channels
unfolding free_count is_free
free-allocate_example =
    free-allocate registers 2 bob pool (refl, (refl, (refl, tt))) (omega arith) (omega arith)

-- The channels that Bob is given.
two_free : (listed (first_free 2 pool.channels) ≡ codes "ec0;ec2;")
unfolding listed first_free is_free get_name decimal
two_free = refl

-- The channel of Alice refuses Bob, and after she has freed it, it still takes her commands.
execute-Refused_example :
    let o = execute simple_lib registers settings cmd_start bob channel_of_alice start_state in
    (o.state ≡ start_state)
    × Refused registers channel_of_alice start_state o
    × (is_authorized (free registers channel_of_alice start_state).0 alice ≡ true)
unfolding is_authorized eq_text
execute-Refused_example =
    execute-Refused simple_lib registers settings cmd_start bob alice channel_of_alice start_state
      (λ e. cc) refl

execute_config_lem_example :
    let o = execute simple_lib registers settings cmd_set_mux alice channel_of_alice start_state in
    let a = reg_address channel_of_alice reg_conf in
    ((b : ℕ) → b ≢ a → o.state.words b ≡ start_state.words b)
    × ((i : ℕ)
        → i < 32
        → field_of cmd_set_mux i ≡ false
        → test_bit (o.state.words a) i ≡ test_bit (start_state.words a) i)
    × (o.answer ≢ ack → o.state ≡ start_state)
execute_config_lem_example =
    execute_config_lem simple_lib registers settings settings-SettingsFit registers-IsRegisterFile
      cmd_set_mux alice channel_of_alice start_state refl

free_lem_example :
    let (c', s') = free registers channel_of_alice start_state in
    (is_free c' ≡ true)
    × ((b : ℕ)
        → s'.words b ≡ (
            if channel_of_alice.is_set && b == reg_address channel_of_alice reg_cmd
            then 0
            else start_state.words b))
free_lem_example = free_lem registers registers-IsRegisterFile channel_of_alice start_state

-- Bob once got the channel that Alice owns now.
abbrev later_pool : Pool Registers
later_pool = record pool { client_hash = (codes "bob", listed (channel_of_alice ∷ [])) ∷ [] }

free_channels_lem_example :
    let (pool', done) = free_channels_from_a_client registers (codes "bob") later_pool in
    (done ≡ true)
    × (pool'.channels ≡ map (release (numbers (channel_of_alice ∷ []))) later_pool.channels)
    × (lookup (codes "bob") pool'.client_hash ≡ some (listed (channel_of_alice ∷ [])))
unfolding lookup eq_text
free_channels_lem_example =
    free_channels_lem registers (codes "bob") (channel_of_alice ∷ []) later_pool refl

abbrev read_block : ℕ → List ℕ
read_block n = 0x21 ∷ 0x43 ∷ 0x00 ∷ 0x00 ∷ []

sec_int_handler_lem_example :
    get_elem? (sec_int_handler read_block pool.channels).0 1
    ≡ some (record channel_of_alice {
      int_reg = record {
        value =
            bit_or channel_of_alice.int_reg.value
              (nibble 1 (le_value (read_block (bytes_to_read (length pool.channels)))));
      };
    })
sec_int_handler_lem_example =
    sec_int_handler_lem read_block pool.channels 1 channel_of_alice
      (omega arith, (omega arith, (omega arith, (omega arith, tt)))) refl
