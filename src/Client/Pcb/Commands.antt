-- ===== src/Client/Pcb/Commands.antt =====
-- `pcbcommands` of zenux-service-interfaces/lib/pcbinterface_p.cpp: what the interface keeps of a request
-- until its answer comes, as an `int`.
use zenux_services.Prelude.{ℕ, ◌≡◌, refl, Option, none, some, List, [], ◌∷◌, ◌==◌, if◌then◌else◌}

pub data PcbCommand : Type 0 where
  getchannellist getdspchannel getstatus resetstatus getalias gettype : PcbCommand
  getunit getrange getrangelist getalias2 gettype2 geturvalue : PcbCommand
  geturvalue2 getrejection getovrejection getadcrejection isavail getgaincorrection : PcbCommand
  getoffsetcorrection getphasecorrection setrange setmeasuringmode adjustcomputation adjuststorage :
      PcbCommand
  adjuststorageclamp adjustinit setadjustgainstatus setadjustphasestatus setadjustoffsetstatus
        setgainnode :
      PcbCommand
  setphasenode setoffsetnode regnotifier unregnotifier pcbinterrupt getsamplerate : PcbCommand
  setpllchannel getaliassource getdspchannelsource getadjustmentstatus getauthorizationstatus
        getpcberrorstatus :
      PcbCommand
  getadjustmentchksum getadjustpcbxml setadjustpcbxml getadjustclampxml setadjustclampxml
        getformfactorsource :
      PcbCommand
  getaliassschead getaliasfrqinput resourcealiasquery getserverversion getpcbversion
        getfpgaversion :
      PcbCommand
  getctrlversion getserialnumber setserialnumber getaccumulatorstatus getaccumulatorsoc
        getchannelsconnected :
      PcbCommand
  readdata writedata transparentcommand : PcbCommand

unfoldable pub pcb_number : PcbCommand → ℕ
pcb_number getchannellist = 0
pcb_number getdspchannel = 1
pcb_number getstatus = 2
pcb_number resetstatus = 3
pcb_number getalias = 4
pcb_number gettype = 5
pcb_number getunit = 6
pcb_number getrange = 7
pcb_number getrangelist = 8
pcb_number getalias2 = 9
pcb_number gettype2 = 10
pcb_number geturvalue = 11
pcb_number geturvalue2 = 12
pcb_number getrejection = 13
pcb_number getovrejection = 14
pcb_number getadcrejection = 15
pcb_number isavail = 16
pcb_number getgaincorrection = 17
pcb_number getoffsetcorrection = 18
pcb_number getphasecorrection = 19
pcb_number setrange = 20
pcb_number setmeasuringmode = 21
pcb_number adjustcomputation = 22
pcb_number adjuststorage = 23
pcb_number adjuststorageclamp = 24
pcb_number adjustinit = 25
pcb_number setadjustgainstatus = 26
pcb_number setadjustphasestatus = 27
pcb_number setadjustoffsetstatus = 28
pcb_number setgainnode = 29
pcb_number setphasenode = 30
pcb_number setoffsetnode = 31
pcb_number regnotifier = 32
pcb_number unregnotifier = 33
pcb_number pcbinterrupt = 34
pcb_number getsamplerate = 35
pcb_number setpllchannel = 36
pcb_number getaliassource = 37
pcb_number getdspchannelsource = 38
pcb_number getadjustmentstatus = 39
pcb_number getauthorizationstatus = 40
pcb_number getpcberrorstatus = 41
pcb_number getadjustmentchksum = 42
pcb_number getadjustpcbxml = 43
pcb_number setadjustpcbxml = 44
pcb_number getadjustclampxml = 45
pcb_number setadjustclampxml = 46
pcb_number getformfactorsource = 47
pcb_number getaliassschead = 48
pcb_number getaliasfrqinput = 49
pcb_number resourcealiasquery = 50
pcb_number getserverversion = 51
pcb_number getpcbversion = 52
pcb_number getfpgaversion = 53
pcb_number getctrlversion = 54
pcb_number getserialnumber = 55
pcb_number setserialnumber = 56
pcb_number getaccumulatorstatus = 57
pcb_number getaccumulatorsoc = 58
pcb_number getchannelsconnected = 59
pcb_number readdata = 60
pcb_number writedata = 61
pcb_number transparentcommand = 62

abbrev pub pcb_commands : List PcbCommand
pcb_commands =
    getchannellist ∷ getdspchannel ∷ getstatus ∷ resetstatus ∷ getalias ∷ gettype ∷ getunit
    ∷ getrange ∷ getrangelist ∷ getalias2 ∷ gettype2 ∷ geturvalue ∷ geturvalue2 ∷ getrejection
    ∷ getovrejection ∷ getadcrejection ∷ isavail ∷ getgaincorrection ∷ getoffsetcorrection
    ∷ getphasecorrection ∷ setrange ∷ setmeasuringmode ∷ adjustcomputation ∷ adjuststorage
    ∷ adjuststorageclamp ∷ adjustinit ∷ setadjustgainstatus ∷ setadjustphasestatus
    ∷ setadjustoffsetstatus ∷ setgainnode ∷ setphasenode ∷ setoffsetnode ∷ regnotifier
    ∷ unregnotifier ∷ pcbinterrupt ∷ getsamplerate ∷ setpllchannel ∷ getaliassource
    ∷ getdspchannelsource ∷ getadjustmentstatus ∷ getauthorizationstatus ∷ getpcberrorstatus
    ∷ getadjustmentchksum ∷ getadjustpcbxml ∷ setadjustpcbxml ∷ getadjustclampxml
    ∷ setadjustclampxml ∷ getformfactorsource ∷ getaliassschead ∷ getaliasfrqinput
    ∷ resourcealiasquery ∷ getserverversion ∷ getpcbversion ∷ getfpgaversion ∷ getctrlversion
    ∷ getserialnumber ∷ setserialnumber ∷ getaccumulatorstatus ∷ getaccumulatorsoc
    ∷ getchannelsconnected ∷ readdata ∷ writedata ∷ transparentcommand ∷ []

abbrev pub numbered : ℕ → List PcbCommand → Option PcbCommand
unfolding pcb_number
numbered n [] = none
numbered n (c ∷ cs) = let rest = numbered n cs in if n == pcb_number c then some c else rest

-- The label of a `switch` that an `int` selects.
unfoldable pub pcb_command : ℕ → Option PcbCommand
pcb_command n = numbered n pcb_commands

pub pcb_command-pcb_number : (c : PcbCommand) → pcb_command (pcb_number c) ≡ some c
unfolding pcb_command pcb_number
pcb_command-pcb_number getchannellist = refl
pcb_command-pcb_number getdspchannel = refl
pcb_command-pcb_number getstatus = refl
pcb_command-pcb_number resetstatus = refl
pcb_command-pcb_number getalias = refl
pcb_command-pcb_number gettype = refl
pcb_command-pcb_number getunit = refl
pcb_command-pcb_number getrange = refl
pcb_command-pcb_number getrangelist = refl
pcb_command-pcb_number getalias2 = refl
pcb_command-pcb_number gettype2 = refl
pcb_command-pcb_number geturvalue = refl
pcb_command-pcb_number geturvalue2 = refl
pcb_command-pcb_number getrejection = refl
pcb_command-pcb_number getovrejection = refl
pcb_command-pcb_number getadcrejection = refl
pcb_command-pcb_number isavail = refl
pcb_command-pcb_number getgaincorrection = refl
pcb_command-pcb_number getoffsetcorrection = refl
pcb_command-pcb_number getphasecorrection = refl
pcb_command-pcb_number setrange = refl
pcb_command-pcb_number setmeasuringmode = refl
pcb_command-pcb_number adjustcomputation = refl
pcb_command-pcb_number adjuststorage = refl
pcb_command-pcb_number adjuststorageclamp = refl
pcb_command-pcb_number adjustinit = refl
pcb_command-pcb_number setadjustgainstatus = refl
pcb_command-pcb_number setadjustphasestatus = refl
pcb_command-pcb_number setadjustoffsetstatus = refl
pcb_command-pcb_number setgainnode = refl
pcb_command-pcb_number setphasenode = refl
pcb_command-pcb_number setoffsetnode = refl
pcb_command-pcb_number regnotifier = refl
pcb_command-pcb_number unregnotifier = refl
pcb_command-pcb_number pcbinterrupt = refl
pcb_command-pcb_number getsamplerate = refl
pcb_command-pcb_number setpllchannel = refl
pcb_command-pcb_number getaliassource = refl
pcb_command-pcb_number getdspchannelsource = refl
pcb_command-pcb_number getadjustmentstatus = refl
pcb_command-pcb_number getauthorizationstatus = refl
pcb_command-pcb_number getpcberrorstatus = refl
pcb_command-pcb_number getadjustmentchksum = refl
pcb_command-pcb_number getadjustpcbxml = refl
pcb_command-pcb_number setadjustpcbxml = refl
pcb_command-pcb_number getadjustclampxml = refl
pcb_command-pcb_number setadjustclampxml = refl
pcb_command-pcb_number getformfactorsource = refl
pcb_command-pcb_number getaliassschead = refl
pcb_command-pcb_number getaliasfrqinput = refl
pcb_command-pcb_number resourcealiasquery = refl
pcb_command-pcb_number getserverversion = refl
pcb_command-pcb_number getpcbversion = refl
pcb_command-pcb_number getfpgaversion = refl
pcb_command-pcb_number getctrlversion = refl
pcb_command-pcb_number getserialnumber = refl
pcb_command-pcb_number setserialnumber = refl
pcb_command-pcb_number getaccumulatorstatus = refl
pcb_command-pcb_number getaccumulatorsoc = refl
pcb_command-pcb_number getchannelsconnected = refl
pcb_command-pcb_number readdata = refl
pcb_command-pcb_number writedata = refl
pcb_command-pcb_number transparentcommand = refl
