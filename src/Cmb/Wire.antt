-- ===== src/Cmb/Wire.antt =====
-- The master's reply to an address request, as the node reads it.
use wbms.Prelude.{ℕ, ◌+◌, ◌*◌, ◌/◌, ◌%◌, ◌^◌, ◌<◌, ◌≡◌, ◌≢◌, List, [], ◌∷◌, arith}
use wbms.Types.{Item, le16, le32}
use wbms.Cmb.Node.{Cmb, Services, done, update_addr, addr_rp_handler}

-- What `net_buf_simple_add_le32` and `net_buf_simple_add_le16` put into a buffer.
pub record IsWire (wire : List Item → List ℕ) : Type 0 where
  pub le32_bytes :
      (x : ℕ) (items : List Item)
      → wire (le32 x ∷ items)
        ≡ x % 256 ∷ x / 256 % 256 ∷ x / 65536 % 256 ∷ x / 16777216 % 256 ∷ wire items
  pub le16_bytes :
      (x : ℕ) (items : List Item) → wire (le16 x ∷ items) ≡ x % 256 ∷ x / 256 % 256 ∷ wire items

module _ {W : Type 0} (services : Services W) (wire : List Item → List ℕ) (law : IsWire wire) where
  -- A node takes over the address of `mercury_mesh_sendAddress` exactly when the reply repeats the
  -- token of the node's own request: the two 16-bit addresses, and the word that survives a reset,
  -- are then the address that the master has sent, and otherwise the node is as it was.
  pub addr_rp_handler-wire :
      (sender t a : ℕ) (s : Cmb W)
      → sender ≢ s.mesh_addr
      → t < 2 ^ 32
      → a < 2 ^ 16
      → ((t ≡ s.addr_token)
          → addr_rp_handler services sender (wire (le32 t ∷ le16 a ∷ [])) s
            ≡ done (record s {
              mesh_addr = a;
              hw_addr = a;
              uicr_customer0 = a;
              world = services.provision a s.world;
            }))
        × ((t ≢ s.addr_token)
            → addr_rp_handler services sender (wire (le32 t ∷ le16 a ∷ [])) s ≡ done s)
  unfolding addr_rp_handler update_addr
  addr_rp_handler-wire sender t a s other small low =
      let token : t % 256
            + 256 * (t / 256 % 256)
            + 256 * 256 * (t / 65536 % 256)
            + 256 * 256 * 256 * (t / 16777216 % 256)
          ≡ t =
        omega arith in
      let addr : a % 256 + 256 * (a / 256 % 256) ≡ a = omega arith in
      rw (law.le32_bytes t (le16 a ∷ []), law.le16_bytes a [])
        (rw (token, addr) (λ own. ground arith, λ foreign. ground arith))
