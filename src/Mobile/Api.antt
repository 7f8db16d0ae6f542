-- ===== src/Mobile/Api.antt =====
-- mobile/services/api: what is sent to the service, and the shapes of its answers that the session
-- reads (types.ts and client.ts).
pub mod Client
use unity_runn.Prelude.{String, Option}

pub data Method : Type 0 where
  get post patch delete : Method

pub data Role : Type 0 where
  user staff admin super_admin : Role

-- `User` of types.ts
pub record User : Type 0 where
  pub id : String
  pub email : String
  pub role : Role

-- `SessionResponse` of types.ts, as the code finds it at run time: nothing checks the answer, so each
-- field may be missing.
pub record SessionResponse : Type 0 where
  pub access_token : Option String
  pub refresh_token : Option String
  pub user : Option User

-- The answer of the service: `undefined` or `null`, an object that may hold a session, or another
-- value, by its JSON text.
pub data Payload : Type 0 where
  absent : Payload
  session : SessionResponse → Payload
  other : String → Payload

-- The bodies that the session sends itself, and others by their JSON text.
pub data Body : Type 0 where
  undefined : Body
  refresh_token : Option String → Body
  credentials : (email password : String) → (full_name : Option String) → Body
  code : String → Body
  json : String → Body

-- `RequestOptions` of client.ts without its signal
pub record RequestOptions : Type 0 where
  pub method : Option Method
  pub body : Body
  pub token : Option String
