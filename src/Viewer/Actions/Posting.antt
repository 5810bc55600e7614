-- ===== src/Viewer/Actions/Posting.antt =====
-- gui/pair_view.cpp: what the form posts, as the node holds it.
use srnp.Base.{
  ℕ, ◌≡◌, ◌≢◌, refl, ◌∙◌, ap, Bool, true, false, some, ℤ, pos, Text, ◌==ℤ◌, ==ℤ_iff, is_empty,
  arith,
}
use srnp.Wire.{Result, ok, err}
use srnp.Messages.{PairType, new_pair}
use srnp.PairSpace.{copy_of}
use srnp.PairSpace.Invariant.{IsSpace}
use srnp.PairSpace.Values.{expiry_or}
use srnp.Client.{Client}
use srnp.Client
use srnp.Client.Pairs.{own-set_pair}
use srnp.Kernel.{Kernel, done}
use srnp.Kernel.Calls.{answered, call, query, set_pair, get_pair, get_owner_id}
use srnp.Viewer.Actions.{
  PairView, node_of, reported, post_type_at, posting_owner, post_as, post_to, press_post,
  not_an_owner,
}

-- A call leaves the client that the method leaves, also when it throws.
client-reported :
    (view : PairView) (sent unsent : Text) (kernel : Kernel) (r : Client × Result Bool)
    → (node_of (reported view sent unsent (answered kernel r)).0).client_instance ≡ some r.0
client-reported view sent unsent kernel (c, ok went) = refl
client-reported view sent unsent kernel (c, err e) = refl

post_type_at-valid : (n : ℕ) → post_type_at n ≢ PairType.invalid
post_type_at-valid n e = ground (arith, e)

get_pair-client :
    (kernel : Kernel) (c : Client) (owner : ℤ) (key : Text)
    → kernel.client_instance ≡ some c
    → get_pair kernel owner key ≡ done (Client.get_pair c owner key)
unfolding get_pair query
get_pair-client kernel c owner key e = rw (e, query) refl

get_owner_id-client :
    (kernel : Kernel) (c : Client)
    → kernel.client_instance ≡ some c
    → get_owner_id kernel ≡ done c.owner_id
unfolding get_owner_id query
get_owner_id-client kernel c e = rw (e, query) refl

call-client :
    {A : Type 0} (kernel : Kernel) (c : Client) (method : Client → Client × Result A)
    → kernel.client_instance ≡ some c
    → call kernel method ≡ answered kernel (method c)
unfolding call
call-client kernel c method e = simp (e, call)

-- The call that the form makes for a pair of our own.
post_as-own :
    (view : PairView) (now : ℤ) (c : Client)
    → (node_of view).client_instance ≡ some c
    → (node_of (post_as view now c.owner_id c.owner_id).0).client_instance
      ≡ some (Client.set_pair c now view.post_key view.post_value (post_type_at view.post_type)).0
unfolding post_as set_pair
post_as-own view now c e =
    let type = post_type_at view.post_type in
    let method : Client → Client × Result Bool =
      λ d. Client.set_pair d now view.post_key view.post_value type in
    rw ((==ℤ_iff c.owner_id c.owner_id).1 refl, call-client (node_of view) c method e)
      (client-reported view _ _ (node_of view) (method c))

press_post-own :
    (view : PairView) (now : ℤ) (c : Client)
    → (node_of view).client_instance ≡ some c
    → (c.owner_id ==ℤ not_an_owner) ≡ false
    → is_empty view.post_key ≡ false
    → is_empty view.post_owner ≡ true
    → press_post view now ≡ post_as view now c.owner_id c.owner_id
unfolding press_post posting_owner post_to
press_post-own view now c e named keyed own =
    simp (keyed, own, get_owner_id-client (node_of view) c e, named)

-- A pair that is posted without an owner, on a node that runs and is registered under an id other than
-- -2, is read by that node as it was posted, under its own id: the value and the type of the form, written now. That holds also
-- when the post throws, since it cannot be framed for its subscribers.
pub get_pair-press_post :
    (view : PairView) (now : ℤ) (c : Client)
    → (node_of view).client_instance ≡ some c
    → c.ready ≡ true
    → IsSpace c.space
    → (c.owner_id ==ℤ not_an_owner) ≡ false
    → is_empty view.post_key ≡ false
    → is_empty view.post_owner ≡ true
    → get_pair (node_of (press_post view now).0) c.owner_id view.post_key
      ≡ done (
          some
            (record (new_pair c.owner_id view.post_key view.post_value
              (post_type_at view.post_type)) {
                write_time = now;
                expiry_time = expiry_or (copy_of c.space c.owner_id view.post_key) (pos 0);
              }))
get_pair-press_post view now c e ready v named keyed own =
    let type = post_type_at view.post_type in
    ap (λ r. get_pair (node_of r.0) c.owner_id view.post_key)
      (press_post-own view now c e named keyed own)
    ∙ (get_pair-client (node_of (post_as view now c.owner_id c.owner_id).0)
          (Client.set_pair c now view.post_key view.post_value type).0 c.owner_id view.post_key
          (post_as-own view now c e)
        ∙ ap done (
            own-set_pair c now view.post_key view.post_value type v ready
              (post_type_at-valid view.post_type)))
