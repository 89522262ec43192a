-- ===== src/Errors.antt =====
-- http.h, http.c: the error codes and their descriptions.
use Prim.Native.String.{String}

pub data ErrorCode : Type 0 where
  request_no_valid_data parse_invalid_request_syntax insufficient_buffer_size : ErrorCode
  incomplete_request unsupported_method duplicate_header_key no_such_header succeed : ErrorCode

unfoldable pub http_get_error_string : ErrorCode → String
http_get_error_string request_no_valid_data =
    "the request supplied does not hold valid information: it may not initialized with HTTP request message, or some error occurred when parsing the message"
http_get_error_string parse_invalid_request_syntax =
    "the syntax of HTTP request message to be parsed is invalid, therefore which may not be processed"
http_get_error_string insufficient_buffer_size =
    "the buffer supplied is insufficient to hold all the results"
http_get_error_string incomplete_request =
    "the HTTP request message to be processed is not complete"
http_get_error_string unsupported_method =
    "the HTTP request attempted a method that is not supported"
http_get_error_string duplicate_header_key =
    "the attempt to add multiple headers with the same key is rejected"
http_get_error_string no_such_header = "the requested key does not exist in headers"
http_get_error_string succeed = "not an error, the operation succeed"
