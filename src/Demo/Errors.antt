-- ===== src/Demo/Errors.antt =====
-- The errors that the handlers of lib/demo_server.js fail with. How they look when they are sent
-- is the business of the JavaScript engine and of the package `verror`, which is not part of the
-- repository.
use node_fast.Base.{String, ◌≡◌, ◌≢◌, none}
use node_fast.Json.{Json, Fields, obj, end}
use node_fast.Server.State.{RpcError}

pub record Errors : Type 0 where
  -- `new Error(message)`
  pub plain : String → RpcError
  -- `new VError({ 'name': name, 'info': info }, '%s', message)`
  pub named : String → Json → String → RpcError
  -- `new VError({ 'info': info }, message)`
  pub informed : Json → String → RpcError
  -- `new VError(cause, 'open/read "%s"', path)`, given the text of the cause's message
  pub caused : String → String → RpcError

-- What the package's documentation says of an error that has a name and properties.
pub record IsDocumented (e : Errors) : Type 0 where
  pub name_kept :
      (name message : String) (fs : Fields)
      → name ≢ ""
      → (e.named name (obj fs) message).name ≡ name
  pub message_kept :
      (name message : String) (fs : Fields) → (e.named name (obj fs) message).message ≡ message
  pub info_kept :
      (name message : String) (fs : Fields) → (e.named name (obj fs) message).info ≡ obj fs
  pub no_context :
      (name message : String) (fs : Fields) → (e.named name (obj fs) message).context ≡ obj end
  pub no_errors :
      (name message : String) (fs : Fields) → (e.named name (obj fs) message).ase_errors ≡ none
