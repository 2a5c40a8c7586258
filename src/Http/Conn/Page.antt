-- ===== src/Http/Conn/Page.antt =====
-- ProcessWrite: the replies.
use piorun.Prelude.{
  ℕ, ◌+◌, ◌-◌, ◌<◌, ◌≡◌, refl, List, ◌++◌, some, Bool, true, false, arith, length, take,
  length-append, if◌then◌else◌,
}
use piorun.Http.Conn.{
  Conn, HttpCode, internal_error, bad_request, forbidden_request, get_request, buffer_size,
}
use piorun.Http.Conn.Reply.{
  add_response, add_status_line, add_content_length, add_linger, add_blank_line, add_content,
  and_then, add_headers, add_page, finish_page, process_write, status_line, content_length_line,
  linger_line, crlf, ok_200_title, ok_string, error_403_title, error_403_form, error_404_title,
  error_404_form, error_500_title, error_500_form,
}
use piorun.Http.Conn.Write.{Adds, Adds-add_response, Adds-bind}

-- The pages of ProcessWrite, and whether it returns true for them.
pub data Page : HttpCode → Bool → ℕ → List ℕ → List ℕ → Type 0 where
  internal : Page internal_error true 500 error_500_title error_500_form
  not_found : Page bad_request true 404 error_404_title error_404_form
  forbidden : Page forbidden_request true 403 error_403_title error_403_form
  hello : Page get_request false 200 ok_200_title ok_string

abbrev pub headers_text : Bool → ℕ → List ℕ
headers_text linger n = (content_length_line n ++ linger_line linger) ++ crlf

-- An HTTP reply: status line, headers with the length of the content, an empty line, the content.
abbrev pub page_text : Bool → ℕ → List ℕ → List ℕ → List ℕ
page_text linger status title form =
    status_line status title ++ (headers_text linger (length form) ++ form)

Adds-add_headers :
    (c : Conn) (n : ℕ)
    → length c.write_buf ≡ buffer_size
    → c.write_idx + length (headers_text c.linger n) < buffer_size - 1
    → Adds c (headers_text c.linger n) (add_headers c n)
unfolding add_headers and_then add_content_length add_linger add_blank_line
Adds-add_headers c n size h =
    Adds-bind c size (and_then (add_content_length c n) add_linger)
      (λ r. if r.0 then add_blank_line r.1 else some r)
      (content_length_line n ++ linger_line c.linger) crlf
      (Adds-bind c size (add_content_length c n) (λ r. if r.0 then add_linger r.1 else some r)
        (content_length_line n) (linger_line c.linger)
        (Adds-add_response c size (content_length_line n) (omega (arith, all, both)))
        (λ buf s. Adds-add_response _ s (linger_line c.linger) (omega (arith, all, both))))
      (λ buf s. Adds-add_response _ s crlf (omega (arith, all, both)))
  where
    all :
        length (headers_text c.linger n)
        ≡ length (content_length_line n ++ linger_line c.linger) + length crlf
    all = length-append (content_length_line n ++ linger_line c.linger) crlf

    both :
        length (content_length_line n ++ linger_line c.linger)
        ≡ length (content_length_line n) + length (linger_line c.linger)
    both = length-append (content_length_line n) (linger_line c.linger)

Adds-add_page :
    (c : Conn) (status : ℕ) (title form : List ℕ)
    → length c.write_buf ≡ buffer_size
    → c.write_idx + length (page_text c.linger status title form) < buffer_size - 1
    → Adds c (page_text c.linger status title form) (add_page c status title form)
unfolding add_page add_status_line add_content
Adds-add_page c status title form size h =
    Adds-bind c size (add_response c (status_line status title)) _ (status_line status title)
      (headers_text c.linger (length form) ++ form)
      (Adds-add_response c size (status_line status title) (omega (arith, all)))
      (λ buf s.
        Adds-bind _ s _ _ (headers_text c.linger (length form)) form
          (Adds-add_headers _ (length form) s (omega (arith, all, both)))
          (λ buf' s'. Adds-add_response _ s' form (omega (arith, all, both))))
  where
    all :
        length (page_text c.linger status title form)
        ≡ length (status_line status title) + length (headers_text c.linger (length form) ++ form)
    all = length-append (status_line status title) (headers_text c.linger (length form) ++ form)

    both :
        length (headers_text c.linger (length form) ++ form)
        ≡ length (headers_text c.linger (length form)) + length form
    both = length-append (headers_text c.linger (length form)) form

-- What ProcessWrite leaves: the whole reply behind what there was to write, and bytes_to_send set if
-- it is to be sent.
pub Replies : Conn → HttpCode → Bool → List ℕ → Type 0
Replies c code sent text =
    (buf : List ℕ) × (process_write c code
      ≡ some (
        sent,
        record c {
          write_buf = buf;
          write_idx = c.write_idx + length text;
          bytes_to_send = if sent then c.write_idx + length text else c.bytes_to_send;
        },
      ))
    × (length buf ≡ buffer_size)
    × (take (c.write_idx + length text) buf ≡ take c.write_idx c.write_buf ++ text)

-- If the reply and two more bytes fit behind write_idx_ in a write buffer of 1024 bytes, ProcessWrite
-- puts the reply of the code there, whole, with the Content-Length of its content. For the three codes
-- of errors it returns true with bytes_to_send at the end of the reply; for GET_REQUEST it returns
-- false and leaves bytes_to_send.
pub process_write-Replies :
    (c : Conn) (code : HttpCode) (sent : Bool) (status : ℕ) (title form : List ℕ)
    → Page code sent status title form
    → length c.write_buf ≡ buffer_size
    → c.write_idx + length (page_text c.linger status title form) < buffer_size - 1
    → Replies c code sent (page_text c.linger status title form)
unfolding Replies process_write finish_page Adds
process_write-Replies c _ _ _ _ _ internal size h = (page.0, rw (page.1) refl, page.2, page.3)
  where
    page :
        Adds c
          (page_text c.linger 500 error_500_title error_500_form)
          (add_page c 500 error_500_title error_500_form)
    page = Adds-add_page c 500 error_500_title error_500_form size h
process_write-Replies c _ _ _ _ _ not_found size h = (page.0, rw (page.1) refl, page.2, page.3)
  where
    page :
        Adds c
          (page_text c.linger 404 error_404_title error_404_form)
          (add_page c 404 error_404_title error_404_form)
    page = Adds-add_page c 404 error_404_title error_404_form size h
process_write-Replies c _ _ _ _ _ forbidden size h = (page.0, rw (page.1) refl, page.2, page.3)
  where
    page :
        Adds c
          (page_text c.linger 403 error_403_title error_403_form)
          (add_page c 403 error_403_title error_403_form)
    page = Adds-add_page c 403 error_403_title error_403_form size h
process_write-Replies c _ _ _ _ _ hello size h = (page.0, rw (page.1) refl, page.2, page.3)
  where
    page :
        Adds c
          (page_text c.linger 200 ok_200_title ok_string)
          (add_page c 200 ok_200_title ok_string)
    page = Adds-add_page c 200 ok_200_title ok_string size h
