-- ===== src/Types.antt =====
-- server/src/types.ts, and the parts that the socket handlers share: whom a message is sent to, a
-- validated payload, and the answers of the database.
use a_meet.Prelude.{String, Bool, Option}

pub record AuthUser : Type 0 where
  pub id : String
  pub name : String
  pub email : String
  pub avatar : String

-- `socket.emit`, `socket.to(room)`, `io.to(room)` and `io.to(socketId)`.
pub data Audience : Type 0 where
  self : Audience
  others : String → Audience
  everyone : String → Audience
  one : String → Audience

-- What Joi, which is not part of the program, makes of a payload: its message or the value.
pub data Validated {ℓ} (A : Type ℓ) : Type ℓ where
  invalid : String → Validated A
  valid : A → Validated A

-- The fields of a room's document that the handlers read. A reference that is not set is `none`.
pub record RoomDoc : Type 0 where
  pub room_id : String
  pub host : Option String
  pub admin : Option String
  pub active : Bool

-- `Room.findOne`: it may throw.
pub data Query : Type 0 where
  found : RoomDoc → Query
  missing : Query
  failed : String → Query
