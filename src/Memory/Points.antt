-- ===== src/Memory/Points.antt =====
-- What one address of the memory holds, and the commands there.
use mqtt_client.Memory.{
  Blocks, Elements, Ptr, element, free_element, heap, load, null, returned, set_content, set_next,
  set_prev, write,
}
use mqtt_client.Prelude.{arith, false, none, some, ◌==◌, ◌∙◌, ◌≡◌, ◌≢◌}

-- `p` holds the element with predecessor `b`, successor `q` and content `c`.
pub record Points (es : Elements) (p b q c : Ptr) : Type 0 where
  pub ne_null : p ≢ null
  pub holds : es p ≡ some (element b q c)

module _ {es : Elements} {p b q c : Ptr} (e : Points es p b q c) where
  pub not_null : (p == null) ≡ false
  not_null = ground arith

  module _ (bs : Blocks) where
    pub load_lem : load p (heap es bs) ≡ returned (element b q c) (heap es bs)
    unfolding load
    load_lem = rw (not_null, e.holds)

    pub set_prev_lem :
        (r : Ptr)
        → set_prev p r (heap es bs) ≡ returned tt (heap (write es p (some (element r q c))) bs)
    unfolding set_prev
    set_prev_lem r = rw load_lem

    pub set_next_lem :
        (r : Ptr)
        → set_next p r (heap es bs) ≡ returned tt (heap (write es p (some (element b r c))) bs)
    unfolding set_next
    set_next_lem r = rw load_lem

    pub set_content_lem :
        (r : Ptr)
        → set_content p r (heap es bs) ≡ returned tt (heap (write es p (some (element b q r))) bs)
    unfolding set_content
    set_content_lem r = rw load_lem

    pub free_element_lem : free_element p (heap es bs) ≡ returned tt (heap (write es p none) bs)
    unfolding free_element
    free_element_lem = rw load_lem

  pub Points-write : (b' q' c' : Ptr) → Points (write es p (some (element b' q' c'))) p b' q' c'
  unfolding write
  Points-write b' q' c' = ground arith

pub Points-same :
    {es gs : Elements} {p b q c : Ptr} → Points es p b q c → gs p ≡ es p → Points gs p b q c
Points-same e same = record { ne_null = e.ne_null; holds = same ∙ e.holds }
