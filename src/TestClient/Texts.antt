-- ===== src/TestClient/Texts.antt =====
-- The texts of the responses that the client's tests follow, where they are there.
use game_database_server.Prelude.{
  ℕ, ◌≡◌, refl, Bool, true, false, not, ◌&&◌, List, Option, none, some, String, if◌then◌else◌,
}
use game_database_server.Packet.EventType.{EventType}
use game_database_server.Packet.Event.{Event}
use game_database_server.Packet.Response.{S2cLogin, S2cLogout}
use game_database_server.Packet.Accessors.{
  as_s2c_login, as_s2c_logout, as_s2c_create_account, as_s2c_create_game_server,
  as_s2c_game_server_list, as_s2c_join_game_server,
}
use game_database_server.Platform.{Platform}
use game_database_server.PacketManager.Parse.{has_type, body_of}
use game_database_server.TestClient.Manager.{verify_packet, fail_with}
use game_database_server.TestClient.Responses.{parse_response}
use game_database_server.TestClient.Session.{GameServerTestClient}
use game_database_server.TestClient.Tests.{
  has_text, account_texts, game_server_texts, list_texts, join_texts, told, logged_in, logged_out,
}

abbrev pub login_texts : S2cLogin → Bool
login_texts r = has_text r.username && has_text r.nickname

abbrev pub logout_texts : S2cLogout → Bool
logout_texts r = has_text r.message

-- The table of no packet lacks a text.
abbrev pub AllHave :
    ⦃p : Platform⦄ {A : Type 0} (as_body : Event → Option A) (texts : A → Bool) → Type 0
AllHave ⦃p⦄ {A} as_body texts =
    (bytes : List ℕ) (r : A)
    → body_of as_body (p.get_database_packet bytes) ≡ some r
    → texts r ≡ true

-- The texts that the tests follow are in every packet that comes.
pub record SendsTexts ⦃p : Platform⦄ : Type 0 where
  pub login : AllHave as_s2c_login login_texts
  pub logout : AllHave as_s2c_logout logout_texts
  pub account : AllHave as_s2c_create_account account_texts
  pub game_server : AllHave as_s2c_create_game_server game_server_texts
  pub game_server_list : AllHave as_s2c_game_server_list list_texts
  pub join : AllHave as_s2c_join_game_server join_texts

-- A response that is there has its texts.
abbrev pub Checked : {A : Type 0} → (A → Bool) → Option A → Type 0
Checked texts none = Unit {0}
Checked texts (some r) = texts r ≡ true

module _ {A B : Type 0} (texts : A → Bool) where
  pub Checked-if :
      (b : Bool) (x y : Option A × B)
      → Checked texts x.0
      → Checked texts y.0
      → Checked texts (if◌then◌else◌ {A = Option A × B} b x y).0
  Checked-if true x y h k = h
  Checked-if false x y h k = k

-- A test returns.
abbrev pub Answered : Option Bool → Type 0
Answered x = (b : Bool) × (x ≡ some b)

pub returns : (b : Bool) → Answered (some b)
returns b = (b, refl)

pub Answered-if :
    {B : Type 0} (b : Bool) (x y : Option Bool × B)
    → Answered x.0
    → Answered y.0
    → Answered (if◌then◌else◌ {A = Option Bool × B} b x y).0
Answered-if true x y h k = h
Answered-if false x y h k = k

pub told-Answered :
    {A : Type 0} (texts : A → Bool) (success : Option A → Bool) (r : Option A)
    → Checked texts r
    → Answered (told texts success r)
told-Answered texts success none h = returns false
told-Answered texts success (some r) h = rw h (returns (success (some r)))

pub logged_in-Answered :
    (username nickname : Option String) (user_id : ℕ) (c : GameServerTestClient)
    → (has_text username && has_text nickname) ≡ true
    → Answered (logged_in username nickname user_id c).0
logged_in-Answered none nickname user_id c h = absurd cc
logged_in-Answered (some username) none user_id c h = absurd cc
logged_in-Answered (some username) (some nickname) user_id c h = returns true

pub logged_out-Answered :
    (message : Option String) (c : GameServerTestClient)
    → has_text message ≡ true
    → Answered (logged_out message c).0
logged_out-Answered none c h = absurd cc
logged_out-Answered (some message) c h = returns true

module _ ⦃p : Platform⦄ where
  pub parse_response-Checked :
      {A : Type 0} (type : EventType) (message : String) (as_body : Event → Option A)
      (texts : A → Bool) (bytes : List ℕ) (m : _)
      → AllHave as_body texts
      → Checked texts (parse_response type message as_body bytes m).0
  unfolding parse_response
  parse_response-Checked type message as_body texts bytes m h =
      Checked-if texts (not (verify_packet bytes m).0) (none, (verify_packet bytes m).1) _ tt
        (Checked-if texts (not (has_type type (p.get_database_packet bytes)))
          (none, fail_with message (verify_packet bytes m).1)
          (body_of as_body (p.get_database_packet bytes), (verify_packet bytes m).1) tt
          (body (body_of as_body (p.get_database_packet bytes)) refl))
    where
      body : (o : _) → body_of as_body (p.get_database_packet bytes) ≡ o → Checked texts o
      body none e = tt
      body (some r) e = h bytes r e
