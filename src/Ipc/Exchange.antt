-- ===== src/Ipc/Exchange.antt =====
-- xrandrw/dwmipc.py: one exchange over the socket, from the check of its path to the decoded reply.
-- The file system, the peer's bytes and `json.loads` are parameters.
pub mod Reply
pub mod Contained
use xrandrw.Prelude.{
  ℕ, ◌+◌, Bool, true, false, not, Option, none, some, List, [], ◌∷◌, ◌++◌, length, if◌then◌else◌,
}
use xrandrw.Json.{Json, null, Result, unavailable, raised}
use xrandrw.Json
use xrandrw.Ipc.Wire.{
  Reject, Read, ok, reject, Round, header_size, pack_header, parse_header, recvall, strip_zeros,
}

-- `os.lstat` of the path
pub data PathStat : Type 0 where
  missing : PathStat
  found : Bool → Bool → PathStat

-- The reasons of a `DwmIpcUnavailable`.
pub data Failure : Type 0 where
  no_path not_socket foreign_owner no_connection no_send bad_json : Failure
  wire : Reject → Failure

pub data Outcome {ℓ} (A : Type ℓ) : Type ℓ where
  done : A → Outcome A
  refused : Failure → Outcome A
  -- another exception
  escaped : Outcome A

-- What is done with the file descriptor.
pub data SocketEvent : Type 0 where
  opened closed : SocketEvent

-- What `json.loads` makes of a body: a value, a `ValueError`, which a malformed text and a wrong
-- encoding are too, or another exception (a `RecursionError` on a value that is nested too deep).
pub data Loaded : Type 0 where
  parsed : Json → Loaded
  value_error other_error : Loaded

-- The path has no NUL in it and the timeout is positive.
pub record Peer : Type 0 where
  -- whether the path is a socket, and the caller's own
  pub lstat : PathStat
  -- `socket.socket`, and `sock.connect`, without an `OSError`
  pub creates : Bool
  pub connects : Bool
  pub accepts_send : Bool
  -- the rounds of `recv`, in their order
  pub rounds : List Round
  pub loads : List ℕ → Loaded

unfoldable pub preflight_socket : PathStat → Outcome (Unit {0})
preflight_socket missing = refused no_path
preflight_socket (found is_socket is_own) =
    if not is_socket
    then refused not_socket
    else if not is_own
    then refused foreign_owner
    else done tt

abbrev pub loaded : Loaded → Outcome Json
loaded (parsed j) = done j
loaded value_error = refused bad_json
loaded other_error = escaped

-- An empty body is `None`.
abbrev decode_data : (List ℕ → Loaded) → List ℕ → Outcome Json
decode_data loads [] = done null
decode_data loads (b ∷ bs) = loaded (loads (b ∷ bs))

unfoldable pub decode_reply : (List ℕ → Loaded) → List ℕ → Outcome Json
decode_reply loads body = decode_data loads (strip_zeros body)

abbrev pub replied : ℕ → Outcome Json → Outcome (ℕ × Json)
replied rtype (done j) = done (rtype, j)
replied rtype (refused f) = refused f
replied rtype escaped = escaped

abbrev pub read_body : (List ℕ → Loaded) → ℕ → Read (List ℕ × List Round) → Outcome (ℕ × Json)
read_body loads rtype (reject e) = refused (wire e)
read_body loads rtype (ok (body, rounds)) = replied rtype (decode_reply loads body)

abbrev pub read_size : (List ℕ → Loaded) → List Round → Read (ℕ × ℕ) → Outcome (ℕ × Json)
read_size loads rounds (reject e) = refused (wire e)
read_size loads rounds (ok (size, rtype)) = read_body loads rtype (recvall rounds [] size)

-- The header is checked before anything of the body is read.
unfoldable pub read_reply : ℕ → (List ℕ → Loaded) → Read (List ℕ × List Round) → Outcome (ℕ × Json)
read_reply max_reply_size loads (reject e) = refused (wire e)
read_reply max_reply_size loads (ok (header, rounds)) =
    read_size loads rounds (parse_header max_reply_size header)

-- The part of `request` behind the connection; a payload that has no header is a `struct.error`.
unfoldable pub converse : ℕ → Peer → Option (List ℕ) → Outcome (ℕ × Json)
unfolding read_reply
converse max_reply_size peer none = escaped
converse max_reply_size peer (some header) =
    if not peer.accepts_send
    then refused no_send
    else read_reply max_reply_size peer.loads (recvall peer.rounds [] header_size)

-- The socket is closed by `finally`, or where the connection fails; nothing catches an `OSError` of
-- `socket.socket` itself.
unfoldable pub connected : ℕ → Peer → ℕ → List ℕ → Outcome (ℕ × Json) × List SocketEvent
unfolding converse
connected max_reply_size peer mtype payload =
    let terminated = payload ++ 0 ∷ [] in
    if not peer.creates
    then (escaped, [])
    else if not peer.connects
    then (refused no_connection, opened ∷ closed ∷ [])
    else (
      converse max_reply_size peer (pack_header mtype (length terminated)),
      opened ∷ closed ∷ [],
    )

abbrev pub checked :
    Outcome (Unit {0})
    → Outcome (ℕ × Json) × List SocketEvent
    → Outcome (ℕ × Json) × List SocketEvent
checked (done _) run = run
checked (refused f) run = (refused f, [])
checked escaped run = (escaped, [])

unfoldable pub request : ℕ → Peer → ℕ → List ℕ → Outcome (ℕ × Json) × List SocketEvent
unfolding preflight_socket connected
request max_reply_size peer mtype payload =
    checked (preflight_socket peer.lstat) (connected max_reply_size peer mtype payload)
