-- ===== src/Server/Result.antt =====
-- What a method of the server's classes comes to: it returns, or throws with the calls done that
-- stand before the one that throws.
use octnet_tftp.Base.{◌≡◌, refl}

pub data Exception : Type 0 where
  system_error bad_weak_ptr : Exception

-- What a method comes to, with the state that it leaves.
pub data Result (A : Type 0) : Type 0 where
  returned : A → Result A
  thrown : Exception → A → Result A

-- How the socket of a connection is set up: it does not open; or it opens, and `set_option` or `bind`
-- throws; or it opens and binds.
pub data SocketSetup : Type 0 where
  open_fails bind_fails all_succeed : SocketSetup

module _ {A : Type 0} where
  abbrev pub left_by : Result A → A
  left_by (returned a) = a
  left_by (thrown e a) = a

module _ {A B : Type 0} where
  abbrev pub map_result : (A → B) → Result A → Result B
  map_result f (returned a) = returned (f a)
  map_result f (thrown e a) = thrown e (f a)

  pub left_by-map_result : (f : A → B) (r : Result A) → left_by (map_result f r) ≡ f (left_by r)
  left_by-map_result f (returned a) = refl
  left_by-map_result f (thrown e a) = refl
