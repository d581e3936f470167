-- ===== src/Tests/Index.antt =====
-- The index of TwoBlocks is searched, listed and added to; its blocks are split.
use osdb_dcdb.Prelude.{◌≡◌, refl, true, false, some, [], ◌∷◌, arith, inl, Ordering, ◌↔◌}
use osdb_dcdb.Cache
use osdb_dcdb.Cache.{IdxBlock, DbIndex}
use osdb_dcdb.Cache.Halves.{Items, move_items-splits}
use osdb_dcdb.Cache.Split.{moved, move_items}
use osdb_dcdb.Index.{Index, search_exact_index_item}
use osdb_dcdb.Index.Add.{add_index_item}
use osdb_dcdb.Index.Added.{Added, add_index_item-Added}
use osdb_dcdb.Index.Refuse.{add_index_item-unique}
use osdb_dcdb.Index.Exact.{Gives, search_exact_index_item-first_equal}
use osdb_dcdb.Index.Keys.{case_compare, case_compare-IsOrder, hash_str, c_string, case_compare-eq}
use osdb_dcdb.Index.Listing.{whole_index, whole_index-listed}
use osdb_dcdb.Links.{ok, error}
use osdb_dcdb.Links.Order.{IsOrder}
use osdb_dcdb.Shells.Search.Plain.{first_equal}
use osdb_dcdb.Tests.TwoBlocks.{
  in_memory, index, index-Uses, index-Chained, index-CanSearch, key_of, block_keys, five, six,
}

whole_index-listed_example :
    (r : Index) × (whole_index 3 3 (index true) ≡ some (161 ∷ 162 ∷ 163 ∷ [], r)) × (r.eof ≡ true)
whole_index-listed_example =
    whole_index-listed 3 3 (index true) five (six ∷ []) (index-Uses true) (refl, (refl, tt))
      (omega arith) (index-Chained true) (omega arith) refl refl (omega arith)

search_exact_index_item-first_equal_example :
    Gives
      (first_equal block_keys.compare (in_memory true).heap.store.data_of 146 (61 ∷ 62 ∷ 63 ∷ []))
      (search_exact_index_item 9 (index true) 46)
unfolding case_compare hash_str
search_exact_index_item-first_equal_example =
    search_exact_index_item-first_equal 9 46 (index true) five (six ∷ []) 43 (44 ∷ [])
      (index-CanSearch true) refl

found_b :
    first_equal block_keys.compare (in_memory true).heap.store.data_of 146 (61 ∷ 62 ∷ 63 ∷ []) ≡ 62
unfolding case_compare hash_str first_equal
found_b = refl

case_compare-IsOrder_example : IsOrder (λ a b. case_compare (key_of a) (key_of b))
case_compare-IsOrder_example = case_compare-IsOrder key_of

case_compare-eq_example : (case_compare (97 ∷ 0 ∷ []) (97 ∷ 0 ∷ 1 ∷ []) ≡ Ordering.eq) ↔ (
    (hash_str (97 ∷ 0 ∷ []) ≡ hash_str (97 ∷ 0 ∷ 1 ∷ []))
    × (c_string (97 ∷ 0 ∷ []) ≡ c_string (97 ∷ 0 ∷ 1 ∷ [])))
case_compare-eq_example = case_compare-eq (97 ∷ 0 ∷ []) (97 ∷ 0 ∷ 1 ∷ [])

-- The same string, with another byte behind its NUL.
same_string : case_compare (97 ∷ 0 ∷ []) (97 ∷ 0 ∷ 1 ∷ []) ≡ Ordering.lt
unfolding case_compare hash_str
same_string = refl

add_index_item-unique_example :
    (r : Index) × (add_index_item 9 (index true) 146 ≡ some (error, r))
    × (r.cache.idx_error ≡ Cache.unique)
unfolding case_compare hash_str first_equal
add_index_item-unique_example =
    add_index_item-unique 9 (index true) 146 five (six ∷ []) 43 (44 ∷ []) (index-CanSearch true)
      refl refl refl refl refl refl

move_items-splits_example :
    (r : DbIndex) × (move_items 1 20 21 (in_memory true) ≡ moved r)
    × Items r 20 21 (61 ∷ []) (62 ∷ 63 ∷ [])
    × (r.heap.store.data_of ≡ (in_memory true).heap.store.data_of)
move_items-splits_example =
    move_items-splits 1 20 21 (in_memory true) (61 ∷ []) (62 ∷ []) (63 ∷ []) refl
      (record {
        from = record {
          chain = (refl, refl, (refl, refl, (refl, refl, tt)));
          distinct = (refl, (refl, (refl, (refl, tt))));
          counted = refl;
        };
        into = record {
          chain = (refl, refl, (refl, refl, tt));
          distinct = (refl, (refl, (refl, tt)));
          counted = refl;
        };
        takes = tt;
        apart = λ a h. ground (arith, h);
      })
      refl refl

add_index_item-Added_example :
    (r : Index) × (add_index_item 9 (index false) 146 ≡ some (ok, r))
    × Added (index false) (index-CanSearch false).uses.links 47 146 (five ∷ six ∷ []) r
unfolding case_compare hash_str
add_index_item-Added_example =
    add_index_item-Added 9 (index false) 146 five (six ∷ []) 43 (44 ∷ []) (index-CanSearch false)
      refl refl refl refl refl
      (
        record { sorted = inl refl; compared = refl; outside = refl; room = omega arith },
        (record { sorted = inl refl; compared = refl; outside = refl; room = omega arith }, tt),
      )
