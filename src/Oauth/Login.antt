-- ===== src/Oauth/Login.antt =====
-- oauth/login.py: the passphrase page. Of a page the model keeps what it shows: the request id of
-- the form, if there is a form, the message and the status.
pub mod Flow
use mcp_postgres.Prelude.{ℕ, Bool, Option, none, some, String, if◌then◌else◌}
use mcp_postgres.Oauth.Model.{Client, compare_digest}
use mcp_postgres.Oauth.Provider.{
  Provider, Redirect, pending_client, complete_authorization, is_empty_text,
}

pub data Message : Type 0 where
  no_message expired incorrect : Message

pub data Response : Type 0 where
  page : Option String → Message → ℕ → Response
  redirect : Redirect → ℕ → Response
  -- the TypeError of `hmac.compare_digest`
  type_error : Response

abbrev pub expired_page : Response
expired_page = page none expired 400

abbrev pub login_page : String → Option Client → Response
login_page rid none = expired_page
login_page rid (some c) = page (some rid) no_message 200

unfoldable pub login_get : ℕ → String → Provider → Response × Provider
login_get now rid p = let (c, q) = pending_client now rid p in (login_page rid c, q)

abbrev pub incorrect_page : String → Response
incorrect_page rid = page (some rid) incorrect 401

abbrev pub redirect_to : Option Redirect → Response
redirect_to none = expired_page
redirect_to (some r) = redirect r 302

-- `checked`, `pruned` and `minted` are the clock readings, `code` the code that may be drawn.
abbrev pub approve : (pruned minted : ℕ) → String → String → Provider → Response × Provider
approve pruned minted code rid p =
    let (r, q) = complete_authorization pruned minted code rid p in (redirect_to r, q)

abbrev pub compared :
    (pruned minted : ℕ) → String → String → Option Bool → Provider → Response × Provider
compared pruned minted code rid none p = (type_error, p)
compared pruned minted code rid (some same) p =
    if same then approve pruned minted code rid p else (incorrect_page rid, p)

abbrev pub check_passphrase :
    (passphrase supplied : String) (pruned minted : ℕ) (code rid : String)
    → Option Client
    → Provider
    → Response × Provider
check_passphrase passphrase supplied pruned minted code rid none p = (expired_page, p)
check_passphrase passphrase supplied pruned minted code rid (some c) p =
    if is_empty_text passphrase
    then (incorrect_page rid, p)
    else compared pruned minted code rid (compare_digest supplied passphrase) p

unfoldable pub login_post :
    (passphrase supplied : String) (checked pruned minted : ℕ) (code rid : String)
    → Provider
    → Response × Provider
login_post passphrase supplied checked pruned minted code rid p =
    let (c, q) = pending_client checked rid p in
    check_passphrase passphrase supplied pruned minted code rid c q
