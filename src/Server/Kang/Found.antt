-- ===== src/Server/Kang/Found.antt =====
-- What kang sees of a valid server of lib/fast_server.js.
use node_fast.Base.{ℕ, ◌≡◌, ◌==◌, ◌&&◌, is_none, Bool, true, false, some, List, [], ◌∷◌, Returns}
use node_fast.Base.Map.{Map, lookup}
use node_fast.Server.State.{Server}
use node_fast.Server.Response.{is_running}
use node_fast.Server.Kang.{
  ObjectType, KangObject, connection_object, request_object, kang_get_object,
}

-- The object is the one that its identifier names: a connection with this identifier, or a request
-- with these, which runs and has not failed.
abbrev pub is_shown : List ℕ → KangObject → Bool
is_shown (cid ∷ []) (connection_object connid _ _ _ _ _ _ _) = connid == cid
is_shown (cid ∷ k ∷ []) (request_object connid msgid _ _ state error _) =
    (connid == cid && msgid == k) && (is_running state && is_none error)
is_shown _ _ = false

-- Each of the objects can be got.
abbrev pub AllGot : ObjectType → Server → List (List ℕ) → Type 0
AllGot type s [] = Unit {0}
AllGot type s (id ∷ ids) =
    Returns (λ o. is_shown id o ≡ true) (kang_get_object type id s) × AllGot type s ids

-- The entries of a part of a table are entries of the table.
abbrev Within : Map ℕ → Map ℕ → Type 0
Within part table = (k h : ℕ) → lookup k part ≡ some h → lookup k table ≡ some h
