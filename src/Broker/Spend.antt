-- ===== src/Broker/Spend.antt =====
-- The money floors of flowers/broker.py for browser actions, and its readings of error texts.
use flowers_oss.Base.{
  Bool, not, ◌&&◌, ◌||◌, Option, none, some, List, [], ◌∷◌, ◌++◌, any, all, map, keep, length,
  is_empty,
}
use flowers_oss.Base.Text.{words, Text, str, lower, occurs, join, is_space, is_digit, same, leb}
use flowers_oss.Base.Value
use flowers_oss.Base.Value.{Value, Fields, py_str, py_str_or_blank}

abbrev pay_target_signals : List Text
pay_target_signals = words (
    "checkout" ∷ "check-out" ∷ "place-order" ∷ "placeorder" ∷ "place order" ∷ "confirm-order"
    ∷ "confirm order" ∷ "complete-order" ∷ "complete-purchase" ∷ "submit-order" ∷ "submit-payment"
    ∷ "pay-now" ∷ "paynow" ∷ "pay now" ∷ "buy-now" ∷ "buynow" ∷ "buy now" ∷ "purchase"
    ∷ "add-payment" ∷ "payment-method" ∷ "place-bid" ∷ [])

abbrev pay_field_signals : List Text
pay_field_signals = words (
    "card-number" ∷ "cardnumber" ∷ "card number" ∷ "cardnum" ∷ "card-num" ∷ "cvv" ∷ "cvc"
    ∷ "credit-card" ∷ "creditcard" ∷ "credit card" ∷ "security-code" ∷ "card-expiry" ∷ [])

abbrev payment_form_markers : List Text
payment_form_markers = words (
    "card number" ∷ "cardnumber" ∷ "card-number" ∷ "cvv" ∷ "cvc" ∷ "security code" ∷ "card holder"
    ∷ "cardholder" ∷ "name on card" ∷ "expiration date" ∷ "expiry date" ∷ "mm/yy" ∷ "mm / yy"
    ∷ "credit card number" ∷ "debit card" ∷ "billing zip" ∷ "card details" ∷ "payment details"
    ∷ "card expiry" ∷ [])

abbrev nonretryable_markers : List Text
nonretryable_markers = words (
    "tool_runtime_bad_input" ∷ "toolinputerror" ∷ "bad_input" ∷ "bad input" ∷ "invalid input"
    ∷ "should be a valid" ∷ "input should be" ∷ "validation error" ∷ "unprocessable" ∷ [])

abbrev mentions : List Text → Text → Bool
mentions markers s = any (λ m. occurs m s) markers

-- `_page_is_payment_form`
unfoldable pub page_is_payment_form : Text → Bool
page_is_payment_form text = leb 2 (length (keep (λ m. occurs m (lower text)) payment_form_markers))

abbrev error_text : Option Text → Text
error_text none = []
error_text (some e) = lower e

-- `_is_auth_required`
unfoldable pub is_auth_required : Option Text → Bool
is_auth_required err =
    occurs (str "authorization_required") (error_text err)
    || occurs (str "authorization required") (error_text err)

-- `_nonretryable_readback`
unfoldable pub nonretryable_readback : Option Text → Bool
nonretryable_readback err =
    occurs (str "nonretryable=true") (error_text err)
    || mentions nonretryable_markers (error_text err)

abbrev object_values : Value → List Value
object_values (Value.object d) = map (λ e. e.1) (Value.fields_list d)
object_values _ = []

-- `str` of a list or a dict is a parameter.
module _ (repr : Value → Text) where
  -- `_looks_like_card_number`
  unfoldable pub looks_like_card_number : Value → Bool
  looks_like_card_number v =
      let digits = keep (λ c. not (is_space c || same c b'-')) (py_str_or_blank repr v) in
      not (is_empty digits)
      && all is_digit digits
      && leb 13 (length digits)
      && leb (length digits) 19

  abbrev param : Text → Fields → Text
  param key params = py_str_or_blank repr (Value.get key params)

  -- `_browser_spend_attempt`
  unfoldable pub browser_spend_attempt : Text → Fields → Bool
  browser_spend_attempt action params =
      let target = lower (
        action
        ++ (b' '
            ∷ join (str " ") (
                map (λ key. param key params)
                  (str "selector"
                    ∷ str "click"
                    ∷ str "ref"
                    ∷ str "target"
                    ∷ str "button"
                    ∷ [])))) in
      let card_field =
        lower (param (str "selector") params ++ (b' ' ∷ param (str "field") params)) in
      mentions pay_target_signals target
      || mentions pay_field_signals card_field
      || any looks_like_card_number (
          Value.get (str "text") params
          ∷ Value.get (str "value") params
          ∷ object_values (Value.get (str "fill") params))
