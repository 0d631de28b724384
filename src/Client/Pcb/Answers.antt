-- ===== src/Client/Pcb/Answers.antt =====
-- `cPCBInterfacePrivate::receiveAnswer` and `VariantConverter` (zenux-service-interfaces/lib): an answer becomes
-- a value by the command that was sent.
use zenux_services.Prelude.{ℕ, ◌==◌, Bool, false, Option, none, some, List}
use zenux_services.Prelude.Int.{ℤ, pos, negsuc}
use zenux_services.Prelude.Text.{Text, split}
use zenux_services.Client.Messages.{AnswerDecoded, NetMessage, Pending, decode_protobuff_answer}
use zenux_services.Client.Pcb.Commands.{
  PcbCommand, pcb_number, pcb_command, getchannellist, getdspchannel, getstatus, resetstatus,
  getalias, gettype, getunit, getrange, getrangelist, getalias2, gettype2, geturvalue, geturvalue2,
  getrejection, getovrejection, getadcrejection, isavail, getgaincorrection, getoffsetcorrection,
  getphasecorrection, setrange, setmeasuringmode, adjustcomputation, adjuststorage,
  adjuststorageclamp, adjustinit, setadjustgainstatus, setadjustphasestatus, setadjustoffsetstatus,
  setgainnode, setphasenode, setoffsetnode, regnotifier, unregnotifier, pcbinterrupt, getsamplerate,
  setpllchannel, getaliassource, getdspchannelsource, getadjustmentstatus, getauthorizationstatus,
  getpcberrorstatus, getadjustmentchksum, getadjustpcbxml, setadjustpcbxml, getadjustclampxml,
  setadjustclampxml, getformfactorsource, getaliassschead, getaliasfrqinput, resourcealiasquery,
  getserverversion, getpcbversion, getfpgaversion, getctrlversion, getserialnumber, setserialnumber,
  getaccumulatorstatus, getaccumulatorsoc, getchannelsconnected, readdata, writedata,
  transparentcommand,
}

-- `QString::toInt`, which is none where it fails, and `toDouble`.
pub record VariantLib (D : Type 0) : Type 0 where
  pub to_int : Text → Option ℤ
  pub to_double : Text → D

pub data Variant (D : Type 0) : Type 0 where
  int_variant : ℤ → Variant D
  string_variant : Text → Variant D
  string_list_variant : List Text → Variant D
  double_variant : D → Variant D
  bool_variant : Bool → Variant D

pub data Kind : Type 0 where
  as_int as_string as_string_list as_double as_bool : Kind

abbrev pub int_or_0 : Option ℤ → ℤ
int_or_0 none = pos 0
int_or_0 (some i) = i

abbrev pub is_1 : ℤ → Bool
is_1 (pos n) = n == 1
is_1 (negsuc n) = false

unfoldable pub convert : {D : Type 0} → VariantLib D → Kind → Text → Variant D
convert lib as_int t = int_variant (int_or_0 (lib.to_int t))
convert lib as_string t = string_variant t
convert lib as_string_list t = string_list_variant (split b';' t)
convert lib as_double t = double_variant (lib.to_double t)
convert lib as_bool t = bool_variant (is_1 (int_or_0 (lib.to_int t)))

-- The branches of the `switch`.
unfoldable pub conversion : PcbCommand → Kind
conversion getdspchannel = as_int
conversion getstatus = as_int
conversion gettype2 = as_int
conversion getsamplerate = as_int
conversion getdspchannelsource = as_int
conversion getadjustmentstatus = as_int
conversion getauthorizationstatus = as_int
conversion getaccumulatorstatus = as_int
conversion getaccumulatorsoc = as_int
conversion getalias = as_string
conversion gettype = as_string
conversion getunit = as_string
conversion getrange = as_string
conversion getalias2 = as_string
conversion getaliassource = as_string
conversion getaliassschead = as_string
conversion getaliasfrqinput = as_string
conversion resourcealiasquery = as_string
conversion getserverversion = as_string
conversion getpcbversion = as_string
conversion getfpgaversion = as_string
conversion getctrlversion = as_string
conversion getserialnumber = as_string
conversion getadjustmentchksum = as_string
conversion getadjustpcbxml = as_string
conversion getadjustclampxml = as_string
conversion getpcberrorstatus = as_string
conversion transparentcommand = as_string
conversion getchannellist = as_string_list
conversion getrangelist = as_string_list
conversion geturvalue = as_double
conversion geturvalue2 = as_double
conversion getrejection = as_double
conversion getovrejection = as_double
conversion getadcrejection = as_double
conversion getgaincorrection = as_double
conversion getoffsetcorrection = as_double
conversion getphasecorrection = as_double
conversion getformfactorsource = as_double
conversion isavail = as_bool
conversion setoffsetnode = as_string
conversion setphasenode = as_string
conversion setgainnode = as_string
conversion adjuststorage = as_string
conversion adjuststorageclamp = as_string
conversion adjustinit = as_string
conversion setadjustgainstatus = as_string
conversion setadjustphasestatus = as_string
conversion setadjustoffsetstatus = as_string
conversion adjustcomputation = as_string
conversion setmeasuringmode = as_string
conversion setrange = as_string
conversion resetstatus = as_string
conversion regnotifier = as_string
conversion unregnotifier = as_string
conversion pcbinterrupt = as_string
conversion setpllchannel = as_string
conversion setadjustpcbxml = as_string
conversion setadjustclampxml = as_string
conversion setserialnumber = as_string
conversion getchannelsconnected = as_string
conversion readdata = as_string
conversion writedata = as_string

-- The arguments of the signal `serverAnswer`.
pub record ServerAnswer (D : Type 0) : Type 0 where
  pub number : ℕ
  pub reply_kind : ℕ
  pub answer : Variant D

unfoldable pub answer_for :
    {D : Type 0} → VariantLib D → AnswerDecoded → Option PcbCommand → Option (ServerAnswer D)
answer_for lib a none = none
answer_for lib a (some c) = some (record {
  number = a.msg_nr;
  reply_kind = a.reply_type;
  answer = convert lib (conversion c) a.msg_body;
})

unfoldable pub emitted :
    {D : Type 0} → VariantLib D → Option AnswerDecoded → Option (ServerAnswer D)
emitted lib none = none
emitted lib (some a) = answer_for lib a (pcb_command a.cmd_send_enum_val)

unfoldable pub receive_answer :
    {D : Type 0} → VariantLib D → NetMessage → Pending → Pending × Option (ServerAnswer D)
receive_answer lib message pending =
    let (pending', decoded) =
      decode_protobuff_answer (some (pcb_number pcbinterrupt)) message pending in
    (pending', emitted lib decoded)
