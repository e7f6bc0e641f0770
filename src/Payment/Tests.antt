-- ===== src/Payment/Tests.antt =====
-- Purchases at concrete inputs.
use the402machine.Base.{none, some, List, [], ◌∷◌, ◌≡◌, refl, arith, ok}
use the402machine.Domain.Plans.{PlanId, Product, price_for_product}
use the402machine.Payment.Delivery.{
  catch_resource, DispensedResource, encrypt_delivery, decrypt_delivery, delivery_resource,
}
use the402machine.Payment.Delivery.RoundTrip.{Documented, decrypt_delivery-encrypt_delivery}
use the402machine.Payment.Tables.{
  OrderRow, Db, map_order, find_order, delivery_of, product_of, record_event,
}
use the402machine.Payment.Orders.{
  ensure_invoice, make_row, attach_to, new_order, by_key, purchase_of, upsert, create_order,
  invoiced_row, pay_row, paid_row, mark_paid,
}
use the402machine.Payment.Dispense.{dispense_paid_order, dispense_paid, deliver}
use the402machine.Payment.Bookkeeping.{IsBooked}
use the402machine.Payment.History.{
  Call, creates, ensures, pays, dispenses, run, AllFresh, run-IsBooked,
}
use the402machine.Payment.Laws.{create_order-again}
use the402machine.Payment.Service.{
  PaymentQuote, Decoder, fulfill, fulfill_found, fulfill_hashed, quote,
}
use the402machine.Payment.Service.Settlement.{
  Justified, fulfill-Justified, Validated, quote-Validated,
}
use the402machine.Payment.Bolt11.{mainnet}
use the402machine.Payment.Samples.{
  delivery, zeros, os, empty, input, invoice, provision, order, adapter, fresh,
}

documented : Documented os zeros delivery
documented = record {
  nonce_size = refl;
  tag_size = refl;
  has_content = omega arith;
  opens = refl;
  parses = refl;
}

decrypt_delivery-encrypt_delivery_example :
    decrypt_delivery os (encrypt_delivery os zeros delivery) ≡ ok delivery
decrypt_delivery-encrypt_delivery_example =
    decrypt_delivery-encrypt_delivery os zeros delivery documented

calls : List Call
calls =
    creates 1 "o" input
    ∷ ensures 2 "o" (ok invoice)
    ∷ pays 3 "o"
    ∷ dispenses 4 "r" zeros provision "o"
    ∷ dispenses 5 "s" zeros provision "o"
    ∷ []

fresh_ids : AllFresh os empty calls
unfolding calls
fresh_ids = (tt, (tt, (tt, (tt, (tt, tt)))))

run-IsBooked_example : IsBooked 0 (run os empty calls)
run-IsBooked_example =
    run-IsBooked os 0 empty calls fresh_ids
      (record { distinct = tt; consistent = tt; balanced = refl })

abbrev created_db : Db
created_db = record empty { orders = order ∷ [] }

created_first : create_order 1 "o" input empty ≡ ok (map_order none order, created_db)
unfolding create_order upsert new_order
created_first = refl

-- Another purchase was stored meanwhile.
abbrev later_db : Db
later_db = record empty { orders = new_order 5 "p" "key-0002" (purchase_of input) ∷ order ∷ [] }

same_found : by_key "key-0001" later_db ≡ by_key "key-0001" created_db
unfolding new_order
same_found = refl

create_order-again_example :
    create_order 9 "other" input later_db ≡ ok (map_order none order, later_db)
create_order-again_example =
    create_order-again 1 9 "o" "other" input empty created_db later_db (map_order none order)
      created_first same_found

abbrev issued_order : OrderRow
issued_order = invoiced_row 2 invoice order

abbrev issued_db : Db
issued_db = record empty { orders = issued_order ∷ [] }

abbrev resource : DispensedResource
resource = catch_resource "r" "catch_a" "owner" "ingest" 5_000

fulfilled :
    fulfill os provision adapter fresh "o" issued_db
    ≡ (ok (some resource), (fulfill os provision adapter fresh "o" issued_db).1)
unfolding fulfill fulfill_found fulfill_hashed mark_paid pay_row invoiced_row new_order map_order
    dispense_paid_order dispense_paid deliver delivery_of product_of delivery_resource record_event
    paid_row
fulfilled = refl

fulfill-Justified_example :
    (row : OrderRow) × (find_order "o" issued_db ≡ some row) × Justified adapter row
fulfill-Justified_example =
    fulfill-Justified os provision adapter fresh "o" issued_db
      (fulfill os provision adapter fresh "o" issued_db).1 resource fulfilled

abbrev decode : Decoder
decode bolt11 payment_hash amount_sats = ok (record {
  payment_hash = payment_hash;
  amount_sats = amount_sats;
  network = mainnet;
  expires_at = 3_600_000;
})

abbrev quoted : PaymentQuote
quoted = record {
  order_id = "o";
  product = Product.catch;
  plan_id = PlanId.standard;
  amount_sats = 402;
  bolt11 = "lnbc1";
  payment_hash = "hash";
  network = some mainnet;
  expires_at = 600_000;
}

quoted_order : (quote 1 0 "o" adapter decode input empty).0 ≡ ok quoted
unfolding quote create_order new_order ensure_invoice map_order make_row attach_to invoiced_row
    price_for_product
quoted_order = refl

quote-Validated_example : Validated 0 decode (quote 1 0 "o" adapter decode input empty)
quote-Validated_example = quote-Validated 1 0 "o" adapter decode input empty
