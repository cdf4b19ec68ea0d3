-- ===== src/Protocols.antt =====
-- TransportDescription of src/protocols/protocols.h and protocols.cpp: a transport as a text
-- "protocol://address[:port][/direction]", and which implementation it stands for.
pub mod RoundTrip
pub mod FreePort
pub mod Tcp
pub mod Pipe
pub mod Padding
pub mod Client
use libpubsub.Base.{
  Bool, Bytes, Option, [], codes, eq_ℤ, equal, false, if◌then◌else◌, none, not, pos, some, true, ℤ,
  ◌&&◌, ◌++◌, ◌/◌, ◌∷◌,
}
use libpubsub.Text.{str_before, str_after, str_has, str_to_lower}
use libpubsub.Text.Decimal.{show, atoi}

-- EndPointType.
pub data EndPoint : Type 0 where
  input output both : EndPoint

-- class TransportDescription.
pub record Description : Type 0 where
  pub valid : Bool
  pub protocol : Bytes
  pub local : Bool
  pub ip : Bytes
  pub port : ℤ
  pub channel : Bytes
  pub type : EndPoint

-- TransportDescription(channel): no valid description. The source leaves `protocol` and `ip` empty.
abbrev pub invalid : Bytes → Description
invalid channel = record {
  valid = false;
  protocol = [];
  local = false;
  ip = [];
  port = pos 0;
  channel = channel;
  type = both;
}

-- The direction that the details of a description name.
unfoldable pub direction : Bytes → EndPoint
unfolding str_has
direction details =
    if str_has details (codes "in")
    then input
    else if str_has details (codes "out")
    then output
    else both

unfoldable pub read_port : Bytes → ℤ
unfolding str_has str_after atoi
read_port url = if str_has url (codes ":") then atoi (str_after url (codes ":")) else pos 0

-- `if(!local && ip=="") ip = "localhost"`.
unfoldable pub or_localhost : Bool → Bytes → Bytes
unfolding equal
or_localhost local ip = if not local && equal ip [] then codes "localhost" else ip

-- The constructor behind the cut at "://".
unfoldable pub describe : Bytes → Bytes → Bytes → Description
unfolding str_before str_after direction read_port or_localhost equal
describe channel protocol url =
    let local = equal protocol (codes "shm") in
    record {
      valid = true;
      protocol = protocol;
      local = local;
      ip = or_localhost local (str_before (str_before url (codes ":")) (codes "/"));
      port = read_port url;
      channel = channel;
      type = direction (str_after url (codes "/"));
    }

-- TransportDescription(channel, desc).
unfoldable pub parse : Bytes → Bytes → Description
unfolding describe str_before str_after str_to_lower
parse channel desc =
    describe channel (str_to_lower (str_before desc (codes "://"))) (str_after desc (codes "://"))

unfoldable pub port_text : ℤ → Bytes
unfolding show
port_text port = if eq_ℤ port (pos 0) then [] else b':' ∷ show port

unfoldable pub type_text : EndPoint → Bytes
type_text input = codes "/input"
type_text output = codes "/output"
type_text both = []

-- TransportDescription::to_string.
unfoldable pub to_string : Description → Bytes
unfolding port_text type_text
to_string d =
    if d.valid
    then d.protocol ++ (codes "://" ++ (d.ip ++ (port_text d.port ++ type_text d.type)))
    else []

-- What create_client and create_server make; `none` is NULL. The flag says that the end point is an
-- output, for a client, or an input, for a server.
pub data Connection : Type 0 where
  tcp_client : Bytes → ℤ → Connection
  shm_client : Bytes → Bool → Connection
  pipe_client rtc_client : Bytes → Bool → ℤ → Connection
  tcp_server : ℤ → Connection
  shm_server pipe_server rtc_server : Bytes → Bool → ℤ → Connection

abbrev is_output : EndPoint → Bool
is_output output = true
is_output _ = false

abbrev is_input : EndPoint → Bool
is_input input = true
is_input _ = false

-- TransportDescription::create_client.
unfoldable pub create_client : Description → Option Connection
unfolding equal
create_client d =
    if equal d.protocol (codes "tcp")
    then some (tcp_client d.ip d.port)
    else if equal d.protocol (codes "shm")
    then some (shm_client d.channel (is_output d.type))
    else if equal d.protocol (codes "pipe")
    then some (pipe_client d.channel (is_output d.type) d.port)
    else if equal d.protocol (codes "rtc")
    then some (rtc_client d.channel (is_output d.type) d.port)
    else none

-- `port ? port : (port = get_free_port(10001, channel))`, for a port that is free.
unfoldable pub chosen_port : ℤ → Description → ℤ
chosen_port free d = if eq_ℤ d.port (pos 0) then free else d.port

-- TransportDescription::create_server, with the description as it leaves it. `free` is what
-- get_free_port answers; it is asked only for a TCP server with no port.
unfoldable pub create_server : ℤ → Description → Option Connection × Description
unfolding equal chosen_port
create_server free d =
    if equal d.protocol (codes "tcp")
    then (some (tcp_server (chosen_port free d)), record d { port = chosen_port free d })
    else if equal d.protocol (codes "shm")
    then (some (shm_server d.channel (is_input d.type) d.port), d)
    else if equal d.protocol (codes "pipe")
    then (some (pipe_server d.channel (is_input d.type) d.port), d)
    else if equal d.protocol (codes "rtc")
    then (some (rtc_server d.channel (is_input d.type) d.port), d)
    else (none, d)
